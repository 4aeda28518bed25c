-- ===== src/Audit/Laws.antt =====
-- The lines of the audit log.
use pyconduit.Base.{
  ◌<◌, String, string_eq, List, if◌then◌else◌, ◌==◌, arith, All, Bool-cases, inl, inr,
}
use mathlib.Core.List.{[] as nil, ◌∷◌ as cons}
use Prim.Native.Char.{Char, code}
use Prim.Native.String.{◌++◌, ◌∷◌, []}
use text.Mathlib.TextLemmas.{nil-append, cons-append}
use pyconduit.Base.Dict
use pyconduit.Base.Dict.{Dict}
use pyconduit.Base.Text.{strip_right, keep_right, is_space}
use pyconduit.Json.{Json}
use pyconduit.Errors.{Python}
use pyconduit.Session.World.{
  AuditEntry, auth_ok, auth_denied, session_open, session_close, xmpp_connect, xmpp_disconnect,
}
use pyconduit.Session.Commands.{ltb}
use pyconduit.Audit.Clean.{clean}
use pyconduit.Audit.{
  join, event_of, fields_of_entry, value_text, stamp, pairs, format_text, audit_line,
}

-- No character below the space, so no line feed and no carriage return.
abbrev pub IsPrintable : String → Type 0
IsPrintable [] = Unit {0}
IsPrintable (c ∷ s) = (31 < code c) × IsPrintable s

append-IsPrintable : (s t : String) → IsPrintable s → IsPrintable t → IsPrintable (s ++ t)
append-IsPrintable [] t p q = rw nil-append q
append-IsPrintable (c ∷ s) t p q = rw cons-append (p.0, append-IsPrintable s t p.1 q)

clean-IsPrintable : (s : String) → IsPrintable (clean s)
unfolding clean
clean-IsPrintable [] = tt
clean-IsPrintable (c ∷ s) = (at_least, clean-IsPrintable s)
  where
    at_least : 31 < code (if ltb (code c) 32 then " " else c)
    at_least = elim (Bool-cases (ltb (code c) 32)) [
      | inl low ↦ rw low (ground arith)
      | inr high ↦ rw high (ground arith)
    ]

keep_right-IsPrintable :
    (c : Char) (s : String) → 31 < code c → IsPrintable s → IsPrintable (keep_right c s)
unfolding keep_right
keep_right-IsPrintable c [] b p = elim (Bool-cases (is_space (code c))) [
  | inl space ↦ rw space tt
  | inr other ↦ rw other (b, tt)
]
keep_right-IsPrintable c (d ∷ s) b p = (b, p)

strip_right-IsPrintable : (s : String) → IsPrintable s → IsPrintable (strip_right s)
unfolding strip_right
strip_right-IsPrintable [] p = tt
strip_right-IsPrintable (c ∷ s) p =
    keep_right-IsPrintable c (strip_right s) p.0 (strip_right-IsPrintable s p.1)

join-IsPrintable : (ss : List String) → All IsPrintable ss → IsPrintable (join ss)
unfolding join
join-IsPrintable nil p = tt
join-IsPrintable (cons s nil) p = p.0
join-IsPrintable (cons s (cons t ts)) p =
    append-IsPrintable s _ p.0
      (append-IsPrintable " " _ (ground arith) (join-IsPrintable (cons t ts) p.1))

module _ (py : Python) where
  pairs-IsPrintable :
      (d : Dict String Json) → Dict.AllKeys IsPrintable d → All IsPrintable (pairs py d)
  unfolding pairs
  pairs-IsPrintable nil p = tt
  pairs-IsPrintable (cons (k, v) d) p = elim (Bool-cases (k == "ts")) [
    | inl same ↦ rw same (pairs-IsPrintable d p.1)
    | inr other ↦ rw other (
      append-IsPrintable k _ p.0
          (append-IsPrintable "=" _ (ground arith) (clean-IsPrintable (value_text py v))),
      pairs-IsPrintable d p.1,
    )
  ]

  -- Whatever the values of an event are, its line holds no control character below the space where
  -- its name and the names of its fields hold none: a value cannot begin a line of its own.
  pub format_text-IsPrintable :
      (event : String) (fields : Dict String Json)
      → IsPrintable event
      → Dict.AllKeys IsPrintable fields
      → IsPrintable (format_text py event fields)
  unfolding format_text
  format_text-IsPrintable event fields named keyed = strip_right-IsPrintable _ (
      append-IsPrintable _ _ (clean-IsPrintable (value_text py (stamp py (Dict.get "ts" fields)))) (
        append-IsPrintable " audit " _ (ground arith) (
          append-IsPrintable event _ named (
            append-IsPrintable " " _ (ground arith)
              (join-IsPrintable _ (pairs-IsPrintable fields keyed))))))

  event_of-IsPrintable : (e : AuditEntry) → IsPrintable (event_of e)
  unfolding event_of
  event_of-IsPrintable (auth_ok _ _ _) = ground arith
  event_of-IsPrintable (auth_denied _ _ _) = ground arith
  event_of-IsPrintable (session_open _ _ _ _) = ground arith
  event_of-IsPrintable (session_close _ _ _ _) = ground arith
  event_of-IsPrintable (xmpp_connect _) = ground arith
  event_of-IsPrintable (xmpp_disconnect _ _) = ground arith

  fields_of_entry-IsPrintable : (e : AuditEntry) → Dict.AllKeys IsPrintable (fields_of_entry e)
  unfolding fields_of_entry
  fields_of_entry-IsPrintable (auth_ok _ _ _) = ground arith
  fields_of_entry-IsPrintable (auth_denied _ _ _) = ground arith
  fields_of_entry-IsPrintable (session_open _ _ _ _) = ground arith
  fields_of_entry-IsPrintable (session_close _ _ _ _) = ground arith
  fields_of_entry-IsPrintable (xmpp_connect _) = ground arith
  fields_of_entry-IsPrintable (xmpp_disconnect _ _) = ground arith

  -- No entry of the audit log, whatever its user, address and reason are, has a control character
  -- below the space in its line in the text format.
  pub audit_line-IsPrintable : (now : String) (e : AuditEntry) → IsPrintable (audit_line py now e)
  unfolding audit_line
  audit_line-IsPrintable now e =
      format_text-IsPrintable (event_of e) _ (event_of-IsPrintable e)
        (ground arith, (ground arith, fields_of_entry-IsPrintable e))
