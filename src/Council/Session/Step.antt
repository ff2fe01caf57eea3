-- ===== src/Council/Session/Step.antt =====
-- One call of a method on a session, and a history of calls. A call that fails changes nothing.
use agent_council.Common.{String, ℕ, List, [], ◌∷◌, Result, ok, err}
use agent_council.Council.Status.{TurnStatus}
use agent_council.Council.Session.State.{Session, SessionError}
use agent_council.Council.Session.Prompts.{queue, discard, replace}
use agent_council.Council.Session.Turns.{
  release, complete, complete_with_result, request_cancel, confirm_cancel, interrupt, fail,
}
use agent_council.Council.Session.Recovery.{record_host_loss, reconcile_host}
use agent_council.Council.Session.Control.{disconnect_controller, reconnect_controller, archive}

pub data Call : Type 0 where
  queues replaces : String → String → String → Call
  releases discards completes_with fails : String → String → Call
  completes confirms_cancel interrupts requests_cancel archives reconnects : String → Call
  loses_host disconnects : Call
  reconciles : String → ℕ → TurnStatus → String → Call

abbrev pub after : Session → Result SessionError Session → Session
after s (ok t) = t
after s (err e) = s

abbrev pub after_with {ℓ} : {A : Type ℓ} → Session → Result SessionError (A × Session) → Session
after_with s (ok (a, t)) = t
after_with s (err e) = s

unfoldable pub step : Session → Call → Session
step s (queues lease key prompt) = after s (queue s lease key prompt)
step s (replaces lease key prompt) = after s (replace s lease key prompt)
step s (releases lease key) = after_with s (release s lease key)
step s (discards lease key) = after s (discard s lease key)
step s (completes_with key result) = after s (complete_with_result s key result)
step s (fails key reason) = after s (fail s key reason)
step s (completes key) = after s (complete s key)
step s (confirms_cancel key) = after s (confirm_cancel s key)
step s (interrupts key) = after s (interrupt s key)
step s (requests_cancel lease) = after s (request_cancel s lease)
step s (archives lease) = after s (archive s lease)
step s (reconnects lease) = after s (reconnect_controller s lease)
step s loses_host = after_with s (record_host_loss s)
step s disconnects = disconnect_controller s
step s (reconciles key gen status result) = after s (reconcile_host s key gen status result)

unfoldable pub run : Session → List Call → Session
unfolding step
run s [] = s
run s (c ∷ cs) = run (step s c) cs
