-- ===== src/Service/Tests.antt =====
-- Runs of internal/service/coordinator.go on concrete calls.
use agent_council.Common.{
  ℕ, ◌<◌, ◌^◌, ◌≡◌, refl, All, true, false, String, some, List, [], ◌∷◌, no_entries, arith,
}
use agent_council.Adapter.Usage.{TurnRef}
use agent_council.Service.Coordinator.{
  ServiceState, is_running, new_coordinator, register_worker, done, track_control,
  apply_diagnostic_blockers, try_stop_idle,
}
use agent_council.Service.Coordinator.Calls.{Call, registers, controls, gives_back, calls}
use agent_council.Service.Coordinator.Accounting.{
  Balanced, open_handles, is_any, is_worker, is_control, calls_keep_Balanced,
}
use agent_council.Service.Coordinator.Admission.{
  any_unseen, stale_diagnostic_refused, idle_stop_is_final,
}
use agent_council.Service.Coordinator.Attachments.{
  AttachmentState, mark_controller_attached, marks, Covers, Published, newest_attachment_wins,
}
use agent_council.Service.Coordinator.Attachments.Fencing.{
  Notice, attaches, detaches, clears, notices, all_spare, HeldOff, older_generation_fenced,
}
use agent_council.Service.Coordinator.Observers.{
  SseEvent, no_observers, broadcast_event, Signal, broadcasts, signals,
}
use agent_council.Service.Coordinator.Observers.Safety.{Sound, signals_keep_Sound}
use agent_council.Service.Coordinator.Observers.Broadcast.{Delivered, broadcast_delivers}

abbrev turn : TurnRef
turn = record { session_id = "s-1"; turn_key = "t-1" }

-- A worker and a control operation are given back, each more than once.
abbrev work : List Call
work = registers turn ∷ controls ∷ gives_back 0 ∷ gives_back 0 ∷ gives_back 1 ∷ gives_back 1 ∷ []

idle_again : (try_stop_idle (calls work new_coordinator)).1 ≡ true
unfolding calls new_coordinator register_worker track_control done try_stop_idle
idle_again = refl

calls_keep_Balanced_example : Balanced (calls work new_coordinator)
calls_keep_Balanced_example = calls_keep_Balanced work

idle_stop_is_final_example :
    let c = calls work new_coordinator in
    let d = calls work (try_stop_idle c).0 in
    (is_running c.state ≡ true)
    × (open_handles is_any c ≡ 0)
    × (c.recovery_blockers ≡ 0)
    × (d.state ≡ ServiceState.stopping)
    × (open_handles is_worker d ≡ 0)
    × (open_handles is_control d ≡ 0)
idle_stop_is_final_example = idle_stop_is_final work work idle_again

work_seen : any_unseen work new_coordinator ≡ true
unfolding any_unseen new_coordinator
work_seen = refl

first_epoch : new_coordinator.blocker_epoch < 2 ^ 64
unfolding new_coordinator
first_epoch = omega arith

stale_diagnostic_refused_example :
    apply_diagnostic_blockers 0 new_coordinator.blocker_epoch (calls work new_coordinator)
    ≡ (calls work new_coordinator, false)
stale_diagnostic_refused_example =
    stale_diagnostic_refused work new_coordinator 0 first_epoch (omega arith) work_seen

abbrev attachment : ℕ → String → ℕ → AttachmentState
attachment generation id revision = record {
  run_id = "r-1";
  generation = generation;
  attachment_id = id;
  instance_id = "i-1";
  revision = revision;
}

-- The second generation starts again at revision 1, and is published first.
abbrev published : List AttachmentState
published = attachment 2 "b" 1 ∷ attachment 1 "a" 5 ∷ []

successor_attached : marks published no_entries "r-1" ≡ some (attachment 2 "b" 1)
unfolding marks mark_controller_attached
successor_attached = refl

newest_attachment_wins_example :
    All (λ a. a.run_id ≡ "r-1" → Covers a (marks published no_entries "r-1")) published
    × Published "r-1" published (marks published no_entries "r-1")
newest_attachment_wins_example = newest_attachment_wins published "r-1"

-- The publication and the disconnect of the older episode come late.
abbrev stragglers : List Notice
stragglers = attaches (attachment 1 "a" 5) ∷ detaches "r-1" 1 "a" "i-1" ∷ clears "r-2" ∷ []

stragglers-spare : all_spare "r-1" 2 stragglers ≡ true
unfolding all_spare
stragglers-spare = refl

older_generation_fenced_example : HeldOff (attachment 1 "a" 5) (attachment 2 "b" 1) (
    notices stragglers (
      mark_controller_attached
        (attachment 2 "b" 1)
        (notices (attaches (attachment 1 "z" 4) ∷ clears "r-1" ∷ []) no_entries)))
older_generation_fenced_example =
    older_generation_fenced (attaches (attachment 1 "z" 4) ∷ clears "r-1" ∷ []) stragglers
      (attachment 1 "a" 5) (attachment 2 "b" 1) (omega arith) stragglers-spare

abbrev notice : SseEvent
notice = record { event = "progress"; body = "{}" }

abbrev watched : List Signal
watched =
    Signal.registers turn ∷ Signal.registers turn ∷ broadcasts turn notice ∷ Signal.closes_all ∷ []

signals_keep_Sound_example : Sound (signals watched no_observers)
signals_keep_Sound_example = signals_keep_Sound watched

broadcast_delivers_example :
    let o = signals (Signal.registers turn ∷ []) no_observers in
    let p = broadcast_event turn notice o in
    Delivered turn notice o p.channels p.subscribers o.subscribers
broadcast_delivers_example = broadcast_delivers (Signal.registers turn ∷ []) turn notice
