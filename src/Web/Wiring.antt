-- ===== src/Web/Wiring.antt =====
-- src/pyconduit/__main__.py and `create_app` of src/pyconduit/web/app.py: what the application is made
-- of, and what of the settings it warns of. FastAPI, uvicorn and logging are not modelled.
use pyconduit.Base.{
  String, string_eq, ◌==◌, if◌then◌else◌, is_empty, List, [], ◌∷◌, ◌++◌, Option, none, some,
}
use pyconduit.Json.{Json}
use pyconduit.Errors.{Result, ok, raise, Python}
use pyconduit.Interface.{Answer, done, failed}
use pyconduit.Config.{Config}
use pyconduit.Config.Loading.{Loader, load_config}
use pyconduit.Auth.{AuthMapper, from_files}
use pyconduit.Audit.Sinks.{Files, Sink, audit_log}
use pyconduit.Session.Account.{text_of}

-- `sys.argv[1] if len(sys.argv) > 1 else os.environ.get("PYCONDUIT_CONFIG", "config.dev.yaml")`, of
-- the arguments after the program's name.
unfoldable pub config_path : List String → Option String → String
config_path (path ∷ _) variable = path
config_path [] (some path) = path
config_path [] none = "config.dev.yaml"

-- `app.state`, but for the manager, which has no account yet.
pub record AppState (F : Type 0) (X : Files) : Type 0 where
  pub config : Config F
  pub sinks : List (Sink X)
  pub mapper : AuthMapper

module _ {F : Type 0} (L : Loader (Config F)) (X : Files) (py : Python)
    (mapping : String → Option Json) where
  abbrev pub with_mapper :
      Config F → List (Sink X) → Result AuthMapper → X.State → Answer (AppState F X) × X.State
  with_mapper cfg sinks (ok mapper) st =
      (done (record { config = cfg; sinks = sinks; mapper = mapper }), st)
  with_mapper cfg sinks (raise exc) st = (failed (text_of exc), st)

  -- `mapping` is what a mapping file holds, if it is there.
  abbrev pub mapper_of : Config F → Result AuthMapper
  mapper_of cfg =
      from_files py cfg.auth.users_file (mapping cfg.auth.users_file) cfg.auth.credentials_file
        (mapping cfg.auth.credentials_file)

  abbrev pub with_sinks :
      Config F → Answer (List (Sink X)) × X.State → Answer (AppState F X) × X.State
  with_sinks cfg (done sinks, st) = with_mapper cfg sinks (mapper_of cfg) st
  with_sinks cfg (failed exc, st) = (failed exc, st)

  abbrev pub with_config : Answer (Config F) → X.State → Answer (AppState F X) × X.State
  with_config (done cfg) st = with_sinks cfg (audit_log X py cfg.audit.destinations st)
  with_config (failed exc) st = (failed exc, st)

  -- `config or load_config(config_path)`
  abbrev pub config_or : Option (Config F) → Option String → Json → Answer (Config F)
  config_or (some cfg) path yaml_data = done cfg
  config_or none path yaml_data = (load_config L path yaml_data).0

  unfoldable pub create_app :
      Option (Config F) → Option String → Json → X.State → Answer (AppState F X) × X.State
  create_app config path yaml_data st = with_config (config_or config path yaml_data) st

  -- `main`, up to uvicorn.
  abbrev pub app_of : Answer (Config F) → Json → X.State → Answer (AppState F X) × X.State
  app_of (done cfg) yaml_data st = create_app (some cfg) none yaml_data st
  app_of (failed exc) yaml_data st = (failed exc, st)

  unfoldable pub main :
      List String → Option String → Json → X.State → Answer (AppState F X) × X.State
  main arguments variable yaml_data st =
      let (loaded, yaml_data') = load_config L (some (config_path arguments variable)) yaml_data in
      app_of loaded yaml_data' st

-- What `lifespan` warns of when it starts.
pub data Warning : Type 0 where
  dev_mode no_origins : Warning

unfoldable pub warnings : {F : Type 0} → Config F → List Warning
warnings cfg =
    (if cfg.auth.mode == "dev" then dev_mode ∷ [] else [])
    ++ (if is_empty cfg.server.allowed_origins then no_origins ∷ [] else [])
