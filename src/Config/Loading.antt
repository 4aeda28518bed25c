-- ===== src/Config/Loading.antt =====
-- src/pyconduit/config.py: `load_config`, with the module's `_yaml_data` as its state. The files, the
-- parser of YAML, `dict` and pydantic's `Config()` are the
-- environment's; what YAML gives is taken to be a JSON value.
use pyconduit.Base.{String, Bool, if◌then◌else◌, [], Option, none, some, ◌≡◌, refl}
use pyconduit.Base.Dict.{Dict}
use pyconduit.Json.{Json, object, truthy}
use pyconduit.Interface.{Answer, done, failed}

pub record Loader (C : Type 0) : Type 0 where
  -- `p.exists()`, and `yaml.safe_load` of the file
  pub exists : String → Bool
  pub safe_load : String → Answer Json
  -- `dict(…)`
  pub dict : Json → Answer (Dict String Json)
  -- `Config()`, of what the YAML source yields
  pub config : Dict String Json → Answer C

module _ {C : Type 0} (L : Loader C) where
  -- `… or {}`
  abbrev pub or_nothing : Answer Json → Answer Json
  or_nothing (done v) = done (if truthy v then v else object [])
  or_nothing (failed exc) = failed exc

  unfoldable pub yaml_of : Option String → Answer Json
  yaml_of none = done (object [])
  yaml_of (some p) = if L.exists p then or_nothing (L.safe_load p) else done (object [])

  -- `Config()`, which calls the source.
  abbrev pub from_source : Answer (Dict String Json) → Answer C
  from_source (done values) = L.config values
  from_source (failed exc) = failed exc

  abbrev pub configured : Json → Answer Json → Answer C × Json
  configured yaml_data (failed exc) = (failed exc, yaml_data)
  configured yaml_data (done values) = (from_source (L.dict values), object [])

  -- The settings, and `_yaml_data` after it.
  unfoldable pub load_config : Option String → Json → Answer C × Json
  load_config path yaml_data = configured yaml_data (yaml_of path)

  configured-apart : (a b : Json) (r : Answer Json) → (configured a r).0 ≡ (configured b r).0
  configured-apart a b (done values) = refl
  configured-apart a b (failed exc) = refl

  -- What is loaded does not depend on what was loaded before.
  load_config-apart :
      (path : Option String) (a b : Json) → (load_config path a).0 ≡ (load_config path b).0
  unfolding load_config
  load_config-apart path a b = configured-apart a b (yaml_of path)

  configured-empties : (r : Answer Json) → (configured (object []) r).1 ≡ object []
  configured-empties (done values) = refl
  configured-empties (failed exc) = refl

  -- From no YAML, a load leaves none behind, whether it returns or raises.
  load_config-empties : (path : Option String) → (load_config path (object [])).1 ≡ object []
  unfolding load_config
  load_config-empties path = configured-empties (yaml_of path)
