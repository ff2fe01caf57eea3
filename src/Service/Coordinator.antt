-- ===== src/Service/Coordinator.antt =====
-- internal/service/coordinator.go: the `Coordinator`. Every method holds its mutex throughout, so
-- each is one step. The closures that the methods return run once (`sync.Once`); they are kept as
-- handles, numbered in the order in which they were issued.
pub mod Observers
pub mod Attachments
pub mod Calls
pub mod Accounting
pub mod Admission
use agent_council.Common.{
  ℕ, zero, suc, ◌+◌, ◌-◌, ◌%◌, ◌^◌, String, Bool, true, false, not, ◌&&◌, ◌||◌, ◌==◌, ltb,
  if◌then◌else◌, text_eq, Option, none, some, List, [], ◌∷◌, Result, ok, err, ◌>>=◌, ◌>>◌, fail_if,
}
use agent_council.Common.Family.{with_at}
use agent_council.Adapter.Usage.{TurnRef}

pub data ServiceState : Type 0 where
  running draining stopping : ServiceState

pub data ServiceError : Type 0 where
  service_stopping : ServiceError

abbrev pub same_ref : TurnRef → TurnRef → Bool
same_ref a b = text_eq a.session_id b.session_id && text_eq a.turn_key b.turn_key

-- What a closure gives back when it is called.
pub data Work : Type 0 where
  worker : TurnRef → Work
  handoff commit control : Work

pub record Handle : Type 0 where
  pub work : Work
  pub spent : Bool

-- `tasks` is the counter of the wait group, `active_turns` the map from a turn to the handle of its
-- worker; `root_cancelled` and `cancelled` are the states of the contexts of the service and of the
-- workers. `panicked` is set where the wait group would fall below zero.
pub record Coordinator : Type 0 where
  pub state : ServiceState
  pub root_cancelled : Bool
  pub tasks : ℕ
  pub live_workers : ℕ
  pub pending_handoffs : ℕ
  pub pending_commits : ℕ
  pub in_flight_control : ℕ
  pub recovery_blockers : ℕ
  pub blocker_epoch : ℕ
  pub active_turns : List (TurnRef × ℕ)
  pub handles : ℕ → Handle
  pub issued : ℕ
  pub cancelled : ℕ → Bool
  pub panicked : Bool

unfoldable pub new_coordinator : Coordinator
new_coordinator = record {
  state = ServiceState.running;
  root_cancelled = false;
  tasks = 0;
  live_workers = 0;
  pending_handoffs = 0;
  pending_commits = 0;
  in_flight_control = 0;
  recovery_blockers = 0;
  blocker_epoch = 0;
  active_turns = [];
  handles = λ i. record { work = Work.handoff; spent = true };
  issued = 0;
  cancelled = λ i. false;
  panicked = false;
}

abbrev pub state_rank : ServiceState → ℕ
state_rank ServiceState.running = 0
state_rank ServiceState.draining = 1
state_rank ServiceState.stopping = 2

unfoldable pub set_state : ServiceState → Coordinator → Coordinator
set_state state c =
    if ltb (state_rank c.state) (state_rank state) then record c { state = state } else c

abbrev pub is_stopping : ServiceState → Bool
is_stopping ServiceState.stopping = true
is_stopping _ = false

abbrev pub is_running : ServiceState → Bool
is_running ServiceState.running = true
is_running _ = false

-- `blockerEpoch` is a uint64.
abbrev pub next_epoch : ℕ → ℕ
next_epoch epoch = (epoch + 1) % 2 ^ 64

abbrev pub without_turn : TurnRef → List (TurnRef × ℕ) → List (TurnRef × ℕ)
without_turn ref [] = []
without_turn ref ((r, i) ∷ turns) =
    if same_ref ref r then without_turn ref turns else (r, i) ∷ without_turn ref turns

-- `tasks.Add(1)`, and the closure that will give the work back.
issue : Work → Coordinator → Coordinator
issue work c = record c {
  tasks = suc c.tasks;
  handles = with_at c.issued (record { work = work; spent = false }) c.handles;
  issued = suc c.issued;
}

-- The handle of the new worker is `c.issued`; its context is derived from the root's.
unfoldable pub register_worker : TurnRef → Coordinator → Result ServiceError Coordinator
unfolding issue
register_worker ref c = do
  fail_if (is_stopping c.state) ServiceError.service_stopping
  ok (record (issue (Work.worker ref) c) {
    active_turns = (ref, c.issued) ∷ without_turn ref c.active_turns;
    live_workers = suc c.live_workers;
    blocker_epoch = next_epoch c.blocker_epoch;
    cancelled = with_at c.issued c.root_cancelled c.cancelled;
  })

unfoldable pub track_handoff : Coordinator → Coordinator
unfolding issue
track_handoff c = record (issue Work.handoff c) { pending_handoffs = suc c.pending_handoffs }

unfoldable pub track_commit : Coordinator → Coordinator
unfolding issue
track_commit c = record (issue Work.commit c) { pending_commits = suc c.pending_commits }

unfoldable pub track_control : Coordinator → Result ServiceError Coordinator
unfolding issue
track_control c = do
  fail_if (is_stopping c.state) ServiceError.service_stopping
  ok (record (issue Work.control c) { in_flight_control = suc c.in_flight_control })

unfoldable pub admit_release : Coordinator → Result ServiceError Coordinator
unfolding track_handoff
admit_release c = do
  fail_if (not (is_running c.state)) ServiceError.service_stopping
  ok (track_handoff c)

-- `tasks.Done()`.
tasks_done : Coordinator → Coordinator
tasks_done c = elim (c.tasks) [
  | zero ↦ record c { panicked = true }
  | suc n ↦ record c { tasks = n }
]

-- The body of a closure. The counters are ints; Accounting shows that none is taken below zero.
give_back : ℕ → Work → Coordinator → Coordinator
unfolding tasks_done
give_back i (Work.worker ref) c = record (tasks_done c) {
  active_turns = without_turn ref c.active_turns;
  live_workers = c.live_workers - 1;
  cancelled = with_at i true c.cancelled;
  blocker_epoch = next_epoch c.blocker_epoch;
}
give_back i Work.handoff c = record (tasks_done c) { pending_handoffs = c.pending_handoffs - 1 }
give_back i Work.commit c = record (tasks_done c) { pending_commits = c.pending_commits - 1 }
give_back i Work.control c = record (tasks_done c) { in_flight_control = c.in_flight_control - 1 }

-- A call of the closure numbered `i`.
unfoldable pub done : ℕ → Coordinator → Coordinator
unfolding give_back
done i c =
    let h = c.handles i in
    if h.spent
    then c
    else give_back i h.work (record c { handles = with_at i (record h { spent = true }) c.handles })

unfoldable pub add_recovery_blocker : Coordinator → Coordinator
add_recovery_blocker c = record c {
  recovery_blockers = suc c.recovery_blockers;
  blocker_epoch = next_epoch c.blocker_epoch;
}

unfoldable pub apply_diagnostic_blockers : ℕ → ℕ → Coordinator → Coordinator × Bool
apply_diagnostic_blockers n epoch c =
    if epoch == c.blocker_epoch then (record c { recovery_blockers = n }, true) else (c, false)

pub set_recovery_blockers : ℕ → Coordinator → Coordinator
set_recovery_blockers n c = record c { recovery_blockers = n }

abbrev pub is_shutdown_eligible : Coordinator → Bool
is_shutdown_eligible c =
    (c.pending_handoffs == 0)
    && (c.live_workers == 0)
    && (c.pending_commits == 0)
    && (c.in_flight_control == 0)
    && (c.recovery_blockers == 0)

unfoldable pub try_stop_idle : Coordinator → Coordinator × Bool
try_stop_idle c =
    if is_running c.state && is_shutdown_eligible c
    then (record c { state = ServiceState.stopping }, true)
    else (c, false)

-- The contexts of the workers in the map are cancelled.
cancel_turns : List (TurnRef × ℕ) → (ℕ → Bool) → ℕ → Bool
cancel_turns [] cancelled = cancelled
cancel_turns ((r, i) ∷ turns) cancelled = cancel_turns turns (with_at i true cancelled)

unfoldable pub cancel_active_workers : Coordinator → Coordinator
unfolding cancel_turns
cancel_active_workers c = record c { cancelled = cancel_turns c.active_turns c.cancelled }

-- `CancelAll` first cancels the root's context without the mutex, and with it those of all workers,
-- which descend from it.
unfoldable pub cancel_root : Coordinator → Coordinator
cancel_root c = record c { root_cancelled = true; cancelled = λ i. true }

-- What `CancelAll` then does under the mutex, less the observers, which it closes there too.
unfoldable pub cancel_all : Coordinator → Coordinator
unfolding cancel_turns
cancel_all c = record c { cancelled = cancel_turns c.active_turns c.cancelled }
