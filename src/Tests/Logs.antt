-- ===== src/Tests/Logs.antt =====
-- A run of the audit log with a file that takes each line and a standard output that takes none.
use pyconduit.Base.{String, Bool, true, false, [], ◌∷◌, ◌≡◌, ◌≢◌, refl}
use Prim.Native.String.{◌++◌}
use pyconduit.Interface.{Answer, done, failed}
use pyconduit.Session.World.{xmpp_connect}
use pyconduit.Config.{text, json}
use pyconduit.Audit.Sinks.{Files, Sink, line_of, emit}
use pyconduit.Audit.Sinks.Delivery.{IsFiles, emit-delivers}
use pyconduit.Tests.Fixtures.{python}

-- The state is what the file holds; the stream `true` is the file.
abbrev appended : Bool → String → String → Answer (Unit {0}) × String
appended true line file = (done tt, file ++ line)
appended false line file = (failed "broken pipe", file)

abbrev pub broken_stdout : Files
broken_stdout = record {
  State = String;
  Stream = Bool;
  stdout = false;
  mkdir = λ path file. (done tt, file);
  open_append = λ path file. (done true, file);
  write = appended;
  flush = λ s file. (done tt, file);
  close = λ s file. (done tt, file);
  dumps = λ d. "{}";
}

abbrev held : Bool → String → String
held true file = file
held false file = ""

appended-own :
    (s : Bool) (line st : String)
    → (appended s line st).0 ≡ done tt
    → held s (appended s line st).1 ≡ held s st ++ line
appended-own true line st e = refl
appended-own false line st e = absurd (cc)

appended-other : (s t : Bool) (line st : String) → s ≢ t → held t (appended s line st).1 ≡ held t st
appended-other true true line st h = absurd (h refl)
appended-other true false line st h = refl
appended-other false t line st h = refl

abbrev documented : IsFiles broken_stdout
documented = record {
  content = held;
  write_own = appended-own;
  write_other = appended-other;
  flush_any = λ s t st. refl;
}

abbrev pub to_file : Sink broken_stdout
to_file = record { stream = true; fmt = json; owns_stream = true }

abbrev pub to_stdout : Sink broken_stdout
to_stdout = record { stream = false; fmt = text; owns_stream = false }

emit-delivers_example :
    emit broken_stdout python "now" (xmpp_connect "alice@example") (to_stdout ∷ to_file ∷ []) "[]"
    ≡ "[]" ++ (line_of broken_stdout python json "now" (xmpp_connect "alice@example") ++ "\n")
emit-delivers_example =
    emit-delivers broken_stdout documented python "now" (xmpp_connect "alice@example")
      (to_stdout ∷ []) [] to_file "[]" ((λ same. cc), tt) tt (λ line st. refl)
