-- ===== src/Audit/Sinks/Delivery.antt =====
-- What reaches the destinations of the audit log.
use pyconduit.Base.{String, List, [], ◌∷◌, ◌++◌ as concat, ◌≡◌, ◌≢◌, refl, ap, ◌∙◌, All}
use Prim.Native.String.{◌++◌}
use pyconduit.Errors.{Python}
use pyconduit.Interface.{Answer, done, failed}
use pyconduit.Session.World.{AuditEntry}
use pyconduit.Audit.Sinks.{Files, Sink, line_of, flushed, write_line, emit}

-- What is documented of text streams: what a stream holds is changed by a `write` on it alone, one
-- that returns adds its text at the end, and a `flush` changes nothing.
pub record IsFiles (X : Files) : Type 0 where
  pub content : X.Stream → X.State → String
  pub write_own :
      (s : X.Stream) (text : String) (st : X.State)
      → (X.write s text st).0 ≡ done tt
      → content s (X.write s text st).1 ≡ content s st ++ text
  pub write_other :
      (s t : X.Stream) (text : String) (st : X.State)
      → s ≢ t
      → content t (X.write s text st).1 ≡ content t st
  pub flush_any : (s t : X.Stream) (st : X.State) → content t (X.flush s st).1 ≡ content t st

module _ (X : Files) (files : IsFiles X) (py : Python) (now : String) (e : AuditEntry) where
  flushed-content :
      (s t : X.Stream) (r : Answer (Unit {0}) × X.State)
      → files.content t (flushed X py s r) ≡ files.content t r.1
  flushed-content s t (done _, st) = files.flush_any s t st
  flushed-content s t (failed _, st) = refl

  apart-content :
      (sinks : List (Sink X)) (t : X.Stream) (st : X.State)
      → All (λ s. s.stream ≢ t) sinks
      → files.content t (emit X py now e sinks st) ≡ files.content t st
  unfolding emit
  apart-content [] t st apart = refl
  apart-content (s ∷ sinks) t st apart =
      apart-content sinks t (write_line X py now e s st) apart.1
      ∙ flushed-content s.stream t (X.write s.stream (line_of X py s.fmt now e ++ "\n") st)
      ∙ files.write_other s.stream t _ st apart.0

  -- An entry reaches a destination whose writes return exactly once, as one line in its format,
  -- whatever the destinations before and after it do: one that fails keeps it from no other.
  pub emit-delivers :
      (before after : List (Sink X)) (s : Sink X) (st : X.State)
      → All (λ t. t.stream ≢ s.stream) before
      → All (λ t. t.stream ≢ s.stream) after
      → ((text : String) (st' : X.State) → (X.write s.stream text st').0 ≡ done tt)
      → files.content s.stream (emit X py now e (concat before (s ∷ after)) st)
        ≡ files.content s.stream st ++ (line_of X py s.fmt now e ++ "\n")
  unfolding emit
  emit-delivers [] after s st b a takes =
      let line = line_of X py s.fmt now e ++ "\n" in
      apart-content after s.stream (write_line X py now e s st) a
      ∙ flushed-content s.stream s.stream (X.write s.stream line st)
      ∙ files.write_own s.stream line st (takes line st)
  emit-delivers (t ∷ before) after s st b a takes =
      emit-delivers before after s (write_line X py now e t st) b.1 a takes
      ∙ ap (λ c. c ++ (line_of X py s.fmt now e ++ "\n"))
          (flushed-content t.stream s.stream
              (X.write t.stream (line_of X py t.fmt now e ++ "\n") st)
            ∙ files.write_other t.stream s.stream _ st b.0)
