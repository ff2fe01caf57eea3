-- ===== src/Service/Coordinator/Accounting.antt =====
-- The counters of internal/service/coordinator.go count the closures that have not been called.
use agent_council.Common.{
  ℕ, suc, ◌+◌, ◌<◌, ltb, Bool, true, false, ◌≡◌, refl, sym, inl, inr, arith, Bool-cases,
  if◌then◌else◌, List, [], ◌∷◌,
}
use agent_council.Common.Family.{with_at, sum_over, sum_over-with_at, sum_over-add, sum_over-const}
use agent_council.Service.Coordinator.{
  Work, worker, handoff, commit, control, Handle, Coordinator, new_coordinator, set_state,
  register_worker, track_handoff, track_commit, track_control, admit_release, done, give_back,
  add_recovery_blocker, apply_diagnostic_blockers, try_stop_idle, cancel_active_workers,
  cancel_root, cancel_all,
}
use agent_council.Service.Coordinator.Calls.{
  Call, sets_state, registers, hands_off, commits, controls, admits, gives_back, adds_blocker,
  applies_diagnostic, stops_idle, cancels_workers, cancels_root, cancels_all, call, calls,
}

abbrev pub is_any : Work → Bool
is_any w = true

abbrev pub is_worker : Work → Bool
is_worker (worker ref) = true
is_worker _ = false

abbrev pub is_handoff : Work → Bool
is_handoff handoff = true
is_handoff _ = false

abbrev pub is_commit : Work → Bool
is_commit commit = true
is_commit _ = false

abbrev pub is_control : Work → Bool
is_control control = true
is_control _ = false

abbrev pub unspent : (Work → Bool) → Handle → ℕ
unspent test h = if h.spent then 0 else if test h.work then 1 else 0

-- The closures of a kind that are still to be called.
abbrev pub open_handles : (Work → Bool) → Coordinator → ℕ
open_handles test c = sum_over (unspent test) c.issued c.handles

pub record Balanced (c : Coordinator) : Type 0 where
  pub all_tasks : c.tasks ≡ open_handles is_any c
  pub workers : c.live_workers ≡ open_handles is_worker c
  pub handoffs : c.pending_handoffs ≡ open_handles is_handoff c
  pub commits_due : c.pending_commits ≡ open_handles is_commit c
  pub controls_due : c.in_flight_control ≡ open_handles is_control c
  pub parts :
      c.tasks ≡ c.live_workers + c.pending_handoffs + c.pending_commits + c.in_flight_control
  pub sound : c.panicked ≡ false

abbrev total : (Work → Bool) → ℕ → (ℕ → Handle) → ℕ
total test n handles = sum_over (unspent test) n handles

-- A closure for the work `w` is issued.
record Issued (c : Coordinator) (w : Work) (n : ℕ) (handles : ℕ → Handle) : Type 0 where
  tasks : total is_any n handles ≡ 1 + open_handles is_any c
  workers : total is_worker n handles ≡ (if is_worker w then 1 else 0) + open_handles is_worker c
  handoffs :
      total is_handoff n handles ≡ (if is_handoff w then 1 else 0) + open_handles is_handoff c
  commits : total is_commit n handles ≡ (if is_commit w then 1 else 0) + open_handles is_commit c
  controls :
      total is_control n handles ≡ (if is_control w then 1 else 0) + open_handles is_control c

issued_one :
    (c : Coordinator) (w : Work)
    → Issued c w (suc c.issued) (with_at c.issued (record { work = w; spent = false }) c.handles)
issued_one c w =
    let h : Handle = record { work = w; spent = false } in
    record {
      tasks = sum_over-add (unspent is_any) c.issued h c.handles;
      workers = sum_over-add (unspent is_worker) c.issued h c.handles;
      handoffs = sum_over-add (unspent is_handoff) c.issued h c.handles;
      commits = sum_over-add (unspent is_commit) c.issued h c.handles;
      controls = sum_over-add (unspent is_control) c.issued h c.handles;
    }

-- The closure `i` is called for the first time.
spend : ℕ → Coordinator → ℕ → Handle
spend i c = with_at i (record (c.handles i) { spent = true }) c.handles

spend-total :
    (test : Work → Bool) (c : Coordinator) (i : ℕ)
    → i < c.issued
    → (c.handles i).spent ≡ false
    → total test c.issued (spend i c) + (if test (c.handles i).work then 1 else 0)
      ≡ open_handles test c
unfolding spend
spend-total test c i h e = ground (
  arith,
  sum_over-with_at (unspent test) c.issued i (record (c.handles i) { spent = true }) c.handles h,
)

-- The sums once the closure `i` has been called.
record Spent (c : Coordinator) (w : Work) (handles : ℕ → Handle) : Type 0 where
  tasks : total is_any c.issued handles + 1 ≡ open_handles is_any c
  workers :
      total is_worker c.issued handles + (if is_worker w then 1 else 0) ≡ open_handles is_worker c
  handoffs :
      total is_handoff c.issued handles + (if is_handoff w then 1 else 0)
      ≡ open_handles is_handoff c
  commits :
      total is_commit c.issued handles + (if is_commit w then 1 else 0) ≡ open_handles is_commit c
  controls :
      total is_control c.issued handles + (if is_control w then 1 else 0)
      ≡ open_handles is_control c

spent_one :
    (c : Coordinator) (i : ℕ)
    → i < c.issued
    → (c.handles i).spent ≡ false
    → Spent c (c.handles i).work (spend i c)
spent_one c i h e = record {
  tasks = spend-total is_any c i h e;
  workers = spend-total is_worker c i h e;
  handoffs = spend-total is_handoff c i h e;
  commits = spend-total is_commit c i h e;
  controls = spend-total is_control c i h e;
}

give_back-Balanced :
    (i : ℕ) (c : Coordinator) (w : Work) (handles : ℕ → Handle)
    → Spent c w handles
    → Balanced c
    → Balanced (give_back i w (record c { handles = handles }))
unfolding give_back
give_back-Balanced i c (worker ref) handles s v = ground arith
give_back-Balanced i c handoff handles s v = ground arith
give_back-Balanced i c commit handles s v = ground arith
give_back-Balanced i c control handles s v = ground arith

done-Balanced : (i : ℕ) (c : Coordinator) → i < c.issued → Balanced c → Balanced (done i c)
unfolding done spend
done-Balanced i c h v = elim (Bool-cases (c.handles i).spent) [
  | inl again ↦ rw again v
  | inr first ↦
      rw first (give_back-Balanced i c (c.handles i).work (spend i c) (spent_one c i h first) v)
]

call-Balanced : (k : Call) (c : Coordinator) → Balanced c → Balanced (call k c)
unfolding call
call-Balanced (gives_back i) c v = elim (Bool-cases (ltb i c.issued)) [
  | inl old ↦ rw old (done-Balanced i c (ground arith) v)
  | inr unknown ↦ rw unknown v
]
call-Balanced (registers ref) c v =
    unfold register_worker in ground (arith, issued_one c (worker ref))
call-Balanced hands_off c v = unfold track_handoff in ground (arith, issued_one c handoff)
call-Balanced commits c v = unfold track_commit in ground (arith, issued_one c commit)
call-Balanced controls c v = unfold track_control in ground (arith, issued_one c control)
call-Balanced admits c v = unfold admit_release in ground (arith, issued_one c handoff)
call-Balanced (sets_state s) c v = unfold set_state in ground arith
call-Balanced adds_blocker c v = unfold add_recovery_blocker in ground arith
call-Balanced (applies_diagnostic n epoch) c v = unfold apply_diagnostic_blockers in ground arith
call-Balanced stops_idle c v = unfold try_stop_idle in ground arith
call-Balanced cancels_workers c v = unfold cancel_active_workers in ground arith
call-Balanced cancels_root c v = unfold cancel_root in ground arith
call-Balanced cancels_all c v = unfold cancel_all in ground arith

pub calls-Balanced : (ks : List Call) (c : Coordinator) → Balanced c → Balanced (calls ks c)
unfolding calls
calls-Balanced [] c v = v
calls-Balanced (k ∷ ks) c v = calls-Balanced ks (call k c) (call-Balanced k c v)

none_open : (test : Work → Bool) → open_handles test new_coordinator ≡ 0
unfolding new_coordinator
none_open test =
    sum_over-const (unspent test) 0 (λ i. record { work = handoff; spent = true }) (λ i. refl)

new_coordinator-Balanced : Balanced new_coordinator
unfolding new_coordinator
new_coordinator-Balanced = record {
  all_tasks = sym (none_open is_any);
  workers = sym (none_open is_worker);
  handoffs = sym (none_open is_handoff);
  commits_due = sym (none_open is_commit);
  controls_due = sym (none_open is_control);
  parts = omega arith;
  sound = refl;
}

-- After any calls on a new coordinator: each of the four counters of work, and the wait group, is
-- the number of the closures issued for that work that have not been called, the wait group is the
-- sum of the counters, and it has never been taken below zero.
pub calls_keep_Balanced : (ks : List Call) → Balanced (calls ks new_coordinator)
calls_keep_Balanced ks = calls-Balanced ks new_coordinator new_coordinator-Balanced
