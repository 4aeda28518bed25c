-- ===== src/Socket/Reading.antt =====
-- What the loop of web/ws.py does with a frame, and what it keeps.
use pyconduit.Base.{String, Bool, List, [], ◌∷◌, ◌≡◌, refl}
use pyconduit.Json.{Json, null}
use pyconduit.Errors.{Error, Result, ok, raise, protocol_error}
use pyconduit.Protocol.{parse_client_message}
use pyconduit.Protocol.Parsing.{parse_client_message-protocol_error}
use pyconduit.Protocol.Frames.{server_error}
use pyconduit.Session.World.{Env, W, Subscriber, send}
use pyconduit.Session.Invariant.{Inv, send-Inv}
use pyconduit.Session.Kept.{Keeps, Keeps-bind, Keeps-lift, Rules, Answers}
use pyconduit.Session.Invariant.Coroutines.{Inv-rules}
use pyconduit.Session.Kept.Frames.{server_error-other}
use pyconduit.Session.Kept.Commands.{handle_command-Keeps}
use pyconduit.Socket.Pump.{Received, frame, unreadable, report, on_frame, pump, go_on}

module _ (E : Env) (sub : Subscriber) where
  -- A frame that cannot be parsed is answered to its tab by a protocol error, and by nothing else.
  pub on_frame-unparsed :
      (raw : Json) (w : W E) (e : Error)
      → parse_client_message E.python raw ≡ raise e
      → (text : String) × (e ≡ protocol_error text)
        × (on_frame E sub raw w ≡ send E sub (server_error "protocol" text null) w)
  unfolding on_frame
  on_frame-unparsed raw w e refused =
      let (text, same) = parse_client_message-protocol_error E.python raw refused in
      (text, same, rw (refused, same) refl)

  module _ {P : W E → Type 0} (r : Rules E P) (answers : Answers E P sub) where
    report-Keeps : (a : Result (Unit {0}) × W E) → P a.1 → P (report E sub a).1
    report-Keeps (ok _, w) h = h
    report-Keeps (raise (protocol_error text), w) h = (answers _ (server_error-other _ _ _)).at w h
    report-Keeps (raise _, w) h = h

    pub on_frame-Keeps : (raw : Json) → Keeps P (on_frame E sub raw)
    unfolding on_frame
    on_frame-Keeps raw = record {
      at = λ w h. report-Keeps _ (
          (Keeps-bind (Keeps-lift (parse_client_message E.python raw))
              (λ m. record { at = λ w' q. handle_command-Keeps r sub answers m w' q })).at
            w h);
    }

  module _ (owner : String) (shut : Bool) where
    pub on_frame-Inv : (raw : Json) → Keeps (Inv E owner shut) (on_frame E sub raw)
    on_frame-Inv raw =
        on_frame-Keeps (Inv-rules E owner shut) (λ frame _. send-Inv E owner shut sub frame) raw

    go_on-Inv :
        (rest : W E → W E) (r : Result (Unit {0}) × W E)
        → ((w : W E) → Inv E owner shut w → Inv E owner shut (rest w))
        → Inv E owner shut r.1
        → Inv E owner shut (go_on E sub rest r)
    go_on-Inv rest (ok _, w) k h = k w h
    go_on-Inv rest (raise _, w) k h = h

    pub pump-Inv :
        (received : List Received) (w : W E)
        → Inv E owner shut w
        → Inv E owner shut (pump E sub received w)
    unfolding pump
    pump-Inv [] w h = h
    pump-Inv (unreadable ∷ received) w h = h
    pump-Inv (frame raw ∷ received) w h =
        go_on-Inv _ _ (pump-Inv received) ((on_frame-Inv raw).at w h)
