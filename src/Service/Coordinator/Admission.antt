-- ===== src/Service/Coordinator/Admission.antt =====
-- Who is admitted by internal/service/coordinator.go while it stops, and which diagnostic applies.
use agent_council.Common.{
  ℕ, ◌+◌, ◌%◌, ◌^◌, ◌<◌, ◌≤◌, ltb, Bool, true, false, not, ◌&&◌, ◌||◌, ◌≡◌, inl, inr, arith,
  Bool-cases, if◌then◌else◌, length, List, [], ◌∷◌,
}
use agent_council.Common.Family.{with_at}
use agent_council.Service.Coordinator.{
  ServiceState, is_running, is_stopping, state_rank, Work, worker, handoff, commit, control,
  Coordinator, new_coordinator, set_state, register_worker, track_handoff, track_commit,
  track_control, admit_release, done, give_back, next_epoch, add_recovery_blocker,
  apply_diagnostic_blockers, try_stop_idle, cancel_active_workers, cancel_root, cancel_all,
}
use agent_council.Service.Coordinator.Calls.{
  Call, sets_state, registers, hands_off, commits, controls, admits, gives_back, adds_blocker,
  applies_diagnostic, stops_idle, cancels_workers, cancels_root, cancels_all, call, calls,
}
use agent_council.Service.Coordinator.Accounting.{
  open_handles, is_any, is_worker, is_control, calls_keep_Balanced, calls-Balanced,
}

-- The call does something that a diagnostic of an earlier epoch has not seen.
abbrev pub unseen : Call → Coordinator → Bool
unseen adds_blocker c = true
unseen (registers ref) c = not (is_stopping c.state)
unseen (gives_back i) c =
    ltb i c.issued && not ((c.handles i).spent) && is_worker ((c.handles i).work)
unseen _ c = false

unfoldable pub any_unseen : List Call → Coordinator → Bool
any_unseen [] c = false
any_unseen (k ∷ ks) c = unseen k c || any_unseen ks (call k c)

-- What one call does to the state and the epoch.
record Effect (c d : Coordinator) (new : Bool) : Type 0 where
  rank : state_rank c.state ≤ state_rank d.state
  epoch : d.blocker_epoch ≡ (if new then next_epoch c.blocker_epoch else c.blocker_epoch)

give_back-Effect : (i : ℕ) (c : Coordinator) (w : Work) → Effect c (give_back i w c) (is_worker w)
unfolding give_back
give_back-Effect i c (worker ref) = ground arith
give_back-Effect i c handoff = ground arith
give_back-Effect i c commit = ground arith
give_back-Effect i c control = ground arith

call-Effect : (k : Call) (c : Coordinator) → Effect c (call k c) (unseen k c)
unfolding call
call-Effect (gives_back i) c =
    unfold done in ground (arith, give_back-Effect i c (c.handles i).work)
call-Effect (registers ref) c = unfold register_worker in ground arith
call-Effect hands_off c = unfold track_handoff in ground arith
call-Effect commits c = unfold track_commit in ground arith
call-Effect controls c = unfold track_control in ground arith
call-Effect admits c = unfold admit_release in ground arith
call-Effect (sets_state s) c = unfold set_state in ground arith
call-Effect adds_blocker c = unfold add_recovery_blocker in ground arith
call-Effect (applies_diagnostic n epoch) c = unfold apply_diagnostic_blockers in ground arith
call-Effect stops_idle c = unfold try_stop_idle in ground arith
call-Effect cancels_workers c = unfold cancel_active_workers in ground arith
call-Effect cancels_root c = unfold cancel_root in ground arith
call-Effect cancels_all c = unfold cancel_all in ground arith

-- The epoch counts, modulo 2 ^ 64, the calls that a diagnostic has not seen.
record Counted (old new length : ℕ) (any : Bool) : Type 0 where
  steps : ℕ
  few : steps ≤ length
  some_step : any ≡ true → 1 ≤ steps
  sum : new ≡ (old + steps) % 2 ^ 64

calls-Counted :
    (ks : List Call) (c : Coordinator)
    → c.blocker_epoch < 2 ^ 64
    → Counted c.blocker_epoch (calls ks c).blocker_epoch (length ks) (any_unseen ks c)
unfolding calls any_unseen
calls-Counted [] c h = record {
  steps = 0;
  few = omega arith;
  some_step = λ a. cc;
  sum = omega arith;
}
calls-Counted (k ∷ ks) c h =
    let first = call-Effect k c in
    let rest = calls-Counted ks (call k c) (ground arith) in
    record {
      steps = (if unseen k c then 1 else 0) + rest.steps;
      few = ground (arith, rest.few);
      some_step = λ a. ground (arith, rest.some_step);
      sum = ground (arith, rest.sum);
    }

-- A diagnostic that was read before a recovery blocker was added, or before a worker was registered
-- or has ended, is refused and changes nothing, whatever other calls came between, as long as fewer
-- than 2 ^ 64 did, where the uint64 epoch would come round.
pub stale_diagnostic_refused :
    (ks : List Call) (c : Coordinator) (blockers : ℕ)
    → c.blocker_epoch < 2 ^ 64
    → length ks < 2 ^ 64
    → any_unseen ks c ≡ true
    → apply_diagnostic_blockers blockers c.blocker_epoch (calls ks c) ≡ (calls ks c, false)
unfolding apply_diagnostic_blockers
stale_diagnostic_refused ks c blockers h few new =
    let counted = calls-Counted ks c h in
    ground (arith, counted.few, counted.some_step new, counted.sum)

-- What stays once the service has stopped idle.
record Stopped (c : Coordinator) : Type 0 where
  stopping : c.state ≡ ServiceState.stopping
  workers : c.live_workers ≡ 0
  controls : c.in_flight_control ≡ 0

give_back-Stopped : (i : ℕ) (c : Coordinator) (w : Work) → Stopped c → Stopped (give_back i w c)
unfolding give_back
give_back-Stopped i c (worker ref) v = ground arith
give_back-Stopped i c handoff v = ground arith
give_back-Stopped i c commit v = ground arith
give_back-Stopped i c control v = ground arith

call-Stopped : (k : Call) (c : Coordinator) → Stopped c → Stopped (call k c)
unfolding call
call-Stopped (gives_back i) c v = elim (Bool-cases (ltb i c.issued && not ((c.handles i).spent))) [
  | inl first ↦
      unfold done in
      ground (
        arith,
        give_back-Stopped i
            (record c { handles = with_at i (record (c.handles i) { spent = true }) c.handles })
            (c.handles i).work,
      )
  | inr again ↦ unfold done in ground arith
]
call-Stopped (registers ref) c v = unfold register_worker in ground arith
call-Stopped hands_off c v = unfold track_handoff in ground arith
call-Stopped commits c v = unfold track_commit in ground arith
call-Stopped controls c v = unfold track_control in ground arith
call-Stopped admits c v = unfold admit_release in ground arith
call-Stopped (sets_state s) c v = unfold set_state in ground arith
call-Stopped adds_blocker c v = unfold add_recovery_blocker in ground arith
call-Stopped (applies_diagnostic n epoch) c v = unfold apply_diagnostic_blockers in ground arith
call-Stopped stops_idle c v = unfold try_stop_idle in ground arith
call-Stopped cancels_workers c v = unfold cancel_active_workers in ground arith
call-Stopped cancels_root c v = unfold cancel_root in ground arith
call-Stopped cancels_all c v = unfold cancel_all in ground arith

calls-Stopped : (ks : List Call) (c : Coordinator) → Stopped c → Stopped (calls ks c)
unfolding calls
calls-Stopped [] c v = v
calls-Stopped (k ∷ ks) c v = calls-Stopped ks (call k c) (call-Stopped k c v)

-- An idle stop is safe and final: if `TryStopIdle` succeeds after any calls on a new coordinator,
-- then the service was running, no closure was left to be called and no recovery blocker was set;
-- and after any later calls the service is stopping and no worker and no control operation runs.
pub idle_stop_is_final :
    (ks later : List Call)
    → (try_stop_idle (calls ks new_coordinator)).1 ≡ true
    → let c = calls ks new_coordinator in
      let d = calls later (try_stop_idle c).0 in
      (is_running c.state ≡ true)
      × (open_handles is_any c ≡ 0)
      × (c.recovery_blockers ≡ 0)
      × (d.state ≡ ServiceState.stopping)
      × (open_handles is_worker d ≡ 0)
      × (open_handles is_control d ≡ 0)
unfolding try_stop_idle
idle_stop_is_final ks later h =
    let c = calls ks new_coordinator in
    let before = calls_keep_Balanced ks in
    let stopped : Coordinator = record c { state = ServiceState.stopping } in
    let after = calls-Balanced later stopped (ground arith) in
    let still = calls-Stopped later stopped (ground arith) in ground arith

pub state_rank_mono :
    (ks : List Call) (c : Coordinator) → state_rank c.state ≤ state_rank (calls ks c).state
unfolding calls
state_rank_mono [] c = omega arith
state_rank_mono (k ∷ ks) c = omega (arith, (call-Effect k c).rank, state_rank_mono ks (call k c))
