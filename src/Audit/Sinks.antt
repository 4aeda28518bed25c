-- ===== src/Audit/Sinks.antt =====
-- src/pyconduit/audit.py: AuditLog, its destinations and what it writes to them. Files, the standard
-- output and the json module are operations of the environment.
pub mod Delivery
use pyconduit.Base.{
  String, string_eq, ◌==◌, Bool, true, false, if◌then◌else◌, List, [], ◌∷◌, Option, none, some,
}
use Prim.Native.String.{◌++◌}
use pyconduit.Base.Dict.{Dict}
use pyconduit.Json.{Json, str}
use pyconduit.Errors.{Python}
use pyconduit.Config.{AuditFormat, text, json, AuditDestination}
use pyconduit.Interface.{Answer, done, failed}
use pyconduit.Session.World.{AuditEntry}
use pyconduit.Audit.{event_of, fields_of_entry, format_text}

-- What a call on a file or a stream answers, and the files after it.
pub record Files : Type 1 where
  pub State : Type 0
  pub Stream : Type 0
  pub stdout : Stream
  -- `path.parent.mkdir(parents=True, exist_ok=True)`, and `path.open("a")`
  pub mkdir : String → State → Answer (Unit {0}) × State
  pub open_append : String → State → Answer Stream × State
  pub write : Stream → String → State → Answer (Unit {0}) × State
  pub flush : Stream → State → Answer (Unit {0}) × State
  pub close : Stream → State → Answer (Unit {0}) × State
  -- `json.dumps(record, default=str)`
  pub dumps : Dict String Json → String

module _ (X : Files) where
  pub record Sink : Type 0 where
    pub stream : X.Stream
    pub fmt : AuditFormat
    pub owns_stream : Bool

  abbrev pub opened : AuditFormat → Answer X.Stream × X.State → Answer Sink × X.State
  opened fmt (done fh, st) = (done (record { stream = fh; fmt = fmt; owns_stream = true }), st)
  opened fmt (failed exc, st) = (failed exc, st)

  abbrev pub after_mkdir :
      String → AuditFormat → Answer (Unit {0}) × X.State → Answer Sink × X.State
  after_mkdir path fmt (done _, st) = opened fmt (X.open_append path st)
  after_mkdir path fmt (failed exc, st) = (failed exc, st)

  abbrev pub open_file : Option String → AuditFormat → X.State → Answer Sink × X.State
  open_file none fmt st = (failed "audit file destination requires 'path'", st)
  open_file (some path) fmt st = after_mkdir path fmt (X.mkdir path st)

  module _ (py : Python) where
    -- One round of `__init__`.
    unfoldable pub open_sink : AuditDestination → X.State → Answer Sink × X.State
    open_sink dest st =
        if dest.type == "stdout"
        then (done (record { stream = X.stdout; fmt = dest.format; owns_stream = false }), st)
        else if dest.type == "file"
        then open_file dest.path dest.format st
        else (failed ("unknown audit destination type: " ++ py.repr dest.type), st)

    abbrev pub with_sink : Sink → Answer (List Sink) × X.State → Answer (List Sink) × X.State
    with_sink sink (done sinks, st) = (done (sink ∷ sinks), st)
    with_sink sink (failed exc, st) = (failed exc, st)

    abbrev pub and_then_open :
        Answer Sink × X.State
        → (X.State → Answer (List Sink) × X.State)
        → Answer (List Sink) × X.State
    and_then_open (done sink, st) rest = with_sink sink (rest st)
    and_then_open (failed exc, st) rest = (failed exc, st)

    -- `__init__`, which gives the sinks.
    unfoldable pub audit_log : List AuditDestination → X.State → Answer (List Sink) × X.State
    audit_log [] st = (done [], st)
    audit_log (dest ∷ destinations) st =
        let rest = audit_log destinations in and_then_open (open_sink dest st) rest

    unfoldable pub line_of : AuditFormat → String → AuditEntry → String
    line_of json now e = X.dumps (("ts", str now) ∷ ("event", str (event_of e)) ∷ fields_of_entry e)
    line_of text now e =
        format_text py (event_of e)
          (("ts", str now) ∷ ("event", str (event_of e)) ∷ fields_of_entry e)

    -- `flush`, unless `write` has raised; nothing is raised here.
    abbrev pub flushed : X.Stream → Answer (Unit {0}) × X.State → X.State
    flushed stream (done _, st) = (X.flush stream st).1
    flushed stream (failed _, st) = st

    abbrev pub write_line : String → AuditEntry → Sink → X.State → X.State
    write_line now e sink st =
        flushed sink.stream (X.write sink.stream (line_of sink.fmt now e ++ "\n") st)

    unfoldable pub emit : String → AuditEntry → List Sink → X.State → X.State
    emit now e [] st = st
    emit now e (sink ∷ sinks) st = emit now e sinks (write_line now e sink st)

  unfoldable pub close_sinks : List Sink → X.State → X.State
  close_sinks [] st = st
  close_sinks (sink ∷ sinks) st =
      close_sinks sinks (if sink.owns_stream then (X.close sink.stream st).1 else st)
