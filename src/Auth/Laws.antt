-- ===== src/Auth/Laws.antt =====
-- What auth.py accepts.
use pyconduit.Base.{String, string_eq, Option, some, ◌≡◌, ◌≢◌, ◌↔◌, arith}
use pyconduit.Base.Dict
use pyconduit.Base.Dict.{Dict}
use pyconduit.Errors.{ok, Python}
use pyconduit.Headers.{last_header, get-lowered}
use pyconduit.Auth.{Identity, AuthMapper, resolve, extract_username}

module _ (py : Python) (m : AuthMapper) (username : String) (i : Identity) where
  resolve_sound :
      resolve py m username ≡ ok i
      → (username ≢ "")
        × (i.username ≡ username)
        × (Dict.get username m.users ≡ some i.jid)
        × (Dict.get i.jid m.credentials ≡ some i.password)
  unfolding resolve
  resolve_sound h = ground arith

  resolve_complete :
      username ≢ ""
      → i.username ≡ username
      → Dict.get username m.users ≡ some i.jid
      → Dict.get i.jid m.credentials ≡ some i.password
      → resolve py m username ≡ ok i
  unfolding resolve
  resolve_complete given same mapped stored = rw (mapped, stored) (ground arith)

  -- `resolve` succeeds exactly for a username that is not empty and is mapped to a JID with a
  -- stored password, and then gives that username, that JID and that password.
  pub resolve_iff : (resolve py m username ≡ ok i) ↔ (
      (username ≢ "")
      × (i.username ≡ username)
      × (Dict.get username m.users ≡ some i.jid)
      × (Dict.get i.jid m.credentials ≡ some i.password))
  resolve_iff =
      (resolve_sound, λ (given, same, mapped, stored). resolve_complete given same mapped stored)

-- Outside dev mode the username is the value, not empty, of the last header whose name is the
-- configured one but for case, whatever the query string asks for.
pub extract_username-proxy_iff :
    (py : Python) (mode header_name : String) (headers : Dict String String)
    (query_user : Option String) (dev_default_user : String) (u : String)
    → mode ≢ "dev"
    → (extract_username py mode header_name headers query_user dev_default_user ≡ ok u)
      ↔ ((last_header py (py.lower header_name) headers ≡ some u) × (u ≢ ""))
unfolding extract_username
extract_username-proxy_iff py mode header_name headers query_user dev_default_user u h =
    ground (arith, get-lowered py (py.lower header_name) headers)
