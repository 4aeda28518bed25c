-- ===== src/Auth.antt =====
-- src/pyconduit/auth.py
pub mod Laws
use pyconduit.Base.{
  String, Bool, true, false, ◌==◌, string_eq, if◌then◌else◌, Option, none, some, List, [], ◌∷◌,
}
use Prim.Native.String.{◌++◌}
use pyconduit.Base.Dict
use pyconduit.Base.Dict.{Dict}
use pyconduit.Json.{Json, str, obj, entries}
use pyconduit.Errors.{Result, ok, raise, auth_error, ◌>>=◌, Python}
use pyconduit.Headers.{lowered}

pub record Identity : Type 0 where
  pub username : String
  pub jid : String
  pub password : String

pub record AuthMapper : Type 0 where
  pub users : Dict String String
  pub credentials : Dict String String

-- `self._users.get(username)` and on: the three refusals of `resolve`, in their order.
unfoldable pub resolve : Python → AuthMapper → String → Result Identity
resolve py m username =
    if username == ""
    then raise (auth_error "empty username")
    else elim (Dict.get username m.users) [
      | none ↦ raise (auth_error ("unknown user: " ++ py.repr username))
      | some jid ↦ elim (Dict.get jid m.credentials) [
        | none ↦ raise (auth_error ("no credentials for jid: " ++ py.repr jid))
        | some password ↦ ok (record { username = username; jid = jid; password = password })
      ]
    ]

module _ (py : Python) where
  -- `str(v)`
  abbrev text_of : Json → String
  text_of (str s) = s
  text_of v = py.show v

  texts : Dict String Json → Dict String String
  texts [] = []
  texts ((k, v) ∷ d) = (k, text_of v) ∷ texts d

  -- `none` is a file that is not there; a file that is no JSON raises in the `json` module.
  unfoldable pub load_json_map : String → Option Json → Result (Dict String String)
  unfolding texts
  load_json_map path none = raise (auth_error ("mapping file not found: " ++ path))
  load_json_map path (some (obj fs)) = ok (texts (entries fs))
  load_json_map path (some _) = raise (auth_error ("mapping file must be a JSON object: " ++ path))

  unfoldable pub from_files : String → Option Json → String → Option Json → Result AuthMapper
  unfolding load_json_map
  from_files users_path users_file credentials_path credentials_file = do
    users ← load_json_map users_path users_file
    credentials ← load_json_map credentials_path credentials_file
    ok (record { users = users; credentials = credentials })

  -- `x or y`, for a text that may be None
  abbrev pub or_else : Option String → String → String
  or_else none y = y
  or_else (some x) y = if x == "" then y else x

  abbrev header_value : String → Option String → Result String
  header_value header_name none = raise (auth_error ("missing auth header: " ++ header_name))
  header_value header_name (some v) =
      if v == "" then raise (auth_error ("missing auth header: " ++ header_name)) else ok v

  unfoldable pub extract_username :
      String → String → Dict String String → Option String → String → Result String
  extract_username mode header_name headers query_user dev_default_user =
      if mode == "dev"
      then ok (or_else query_user dev_default_user)
      else header_value header_name (Dict.get (py.lower header_name) (lowered py headers))
