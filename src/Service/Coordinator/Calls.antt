-- ===== src/Service/Coordinator/Calls.antt =====
-- The calls that the handlers, the supervisors and the shutdown of internal/service make on the
-- coordinator, in any order.
use agent_council.Common.{ℕ, ltb, if◌then◌else◌, List, [], ◌∷◌, Result, ok, err}
use agent_council.Adapter.Usage.{TurnRef}
use agent_council.Service.Coordinator.{
  ServiceState, ServiceError, Coordinator, set_state, register_worker, track_handoff, track_commit,
  track_control, admit_release, done, add_recovery_blocker, apply_diagnostic_blockers,
  try_stop_idle, cancel_active_workers, cancel_root, cancel_all,
}

pub data Call : Type 0 where
  sets_state : ServiceState → Call
  registers : TurnRef → Call
  hands_off commits controls admits : Call
  gives_back : (handle : ℕ) → Call
  adds_blocker : Call
  applies_diagnostic : (blockers epoch : ℕ) → Call
  stops_idle cancels_workers cancels_root cancels_all : Call

-- A call that is refused changes nothing.
abbrev pub granted : Coordinator → Result ServiceError Coordinator → Coordinator
granted c (ok d) = d
granted c (err e) = c

-- `CancelAll` is `cancels_root` and then `cancels_all`, with other calls between them or not.
-- A closure can be called only once it has been issued.
unfoldable pub call : Call → Coordinator → Coordinator
call (sets_state s) c = set_state s c
call (registers ref) c = granted c (register_worker ref c)
call hands_off c = track_handoff c
call commits c = track_commit c
call controls c = granted c (track_control c)
call admits c = granted c (admit_release c)
call (gives_back i) c = if ltb i c.issued then done i c else c
call adds_blocker c = add_recovery_blocker c
call (applies_diagnostic n epoch) c = (apply_diagnostic_blockers n epoch c).0
call stops_idle c = (try_stop_idle c).0
call cancels_workers c = cancel_active_workers c
call cancels_root c = cancel_root c
call cancels_all c = cancel_all c

unfoldable pub calls : List Call → Coordinator → Coordinator
unfolding call
calls [] c = c
calls (k ∷ ks) c = calls ks (call k c)
