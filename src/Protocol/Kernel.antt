-- ===== src/Protocol/Kernel.antt =====
-- The session of internal/council/domain.go implements the protocol.
use agent_council.Common.{
  ℕ, String, true, false, ◌≡◌, refl, inl, inr, arith, eq_iff, text_eq, Option-cases, Option, none,
  some, List, ok,
}
use agent_council.Council.Contributor.{Contributor}
use agent_council.Council.Status.{TurnStatus, is_live, is_terminal, turn_cancelling}
use agent_council.Council.Session.State.{Session, new_session, TurnRecord, store}
use agent_council.Council.Session.Turns.{start_turn, settle}
use agent_council.Council.Session.Recovery.{resume, reachable_again}
use agent_council.Council.Session.Step.{Call, step, run}
use agent_council.Council.Session.Change.{
  Change, keeps, queued, replaced, discarded, started, settled, cancels, loses, resumes, closes,
  recovers, connects, closes_session, step-Change,
}
use agent_council.Council.Session.Invariant.{Inv, new_session-run-Inv}
use agent_council.Protocol.{Phase, phase_of_status, is_active, allowed, Step, idles, moves}

abbrev turn_phase : (ℕ → TurnRecord) → Option String → Option ℕ → Phase
turn_phase cells prompt (some r) = phase_of_status (cells r).status
turn_phase cells none none = Phase.absent
turn_phase cells (some p) none = Phase.queued

-- The phase of a key in a session.
abbrev pub phase : Session → String → Phase
phase s k = turn_phase s.cells (s.pending k) (s.turns k)

-- The active turn is the only one whose cell is active.
settled_elsewhere :
    (s : Session) (r : ℕ) (t : TurnRecord) (j : String)
    → Inv s
    → s.active_turn ≡ some r
    → text_eq s.active j ≡ false
    → turn_phase (store r t s.cells) (s.pending j) (s.turns j) ≡ phase s j
settled_elsewhere s r t j v a h = elim (Option-cases (s.turns j)) [
  | inl nothing ↦ rw nothing
  | inr (q, found) ↦ ground (arith, v j q, v s.active r, eq_iff s.active j)
]

idle_active :
    (s : Session) (j : String) → Inv s → s.active_turn ≡ none → is_active (phase s j) ≡ false
idle_active s j v a = elim (Option-cases (s.turns j)) [
  | inl nothing ↦ ground (arith, Option-cases (s.pending j))
  | inr (q, found) ↦ ground (arith, v j q)
]

started_elsewhere :
    (s : Session) (k p j : String)
    → Inv s
    → text_eq k j ≡ false
    → phase (start_turn s k p) j ≡ phase s j
unfolding start_turn
started_elsewhere s k p j v h = elim (Option-cases (s.turns j)) [
  | inl nothing ↦ ground arith
  | inr (q, found) ↦ ground (arith, v j q)
]

end_allowed :
    (a b : TurnStatus)
    → is_live a ≡ true
    → is_terminal b ≡ true
    → allowed (phase_of_status a) (phase_of_status b) ≡ true
end_allowed a b h k = ground arith

resume_allowed :
    (a b : TurnStatus)
    → is_live a ≡ true
    → is_live b ≡ true
    → (turn_cancelling a ≡ true → b ≡ TurnStatus.cancelling)
    → allowed (phase_of_status a) (phase_of_status b) ≡ true
resume_allowed a b h k c = ground arith

live_active : (a : TurnStatus) → is_live a ≡ true → is_active (phase_of_status a) ≡ true
live_active a h = ground arith

-- The active turn's cell changes, and nothing else that the phases read.
cell_moves :
    (s t : Session) (r : ℕ) (new : TurnRecord)
    → Inv s
    → s.active_turn ≡ some r
    → t.cells ≡ store r new s.cells
    → t.pending ≡ s.pending
    → t.turns ≡ s.turns
    → allowed (phase_of_status (s.cells r).status) (phase_of_status new.status) ≡ true
    → Step (phase s) (phase t)
cell_moves s t r new v a cells pending turns fits =
    let here = (v s.active r).registered a in
    let live = live_active (s.cells r).status ((v s.active r).live a) in
    moves s.active (rw (cells, turns, here) (ground arith))
      (λ j h. rw (cells, pending, turns) (settled_elsewhere s r new j v a h))
      (λ h h' j. absurd (ground arith))

Change-Step : {s t : Session} → Change s t → Inv s → Step (phase s) (phase t)
unfolding start_turn settle
Change-Step keeps v = idles (λ j. refl)
Change-Step {s} (queued k p b n m) v =
    moves k (ground (arith, eq_iff k k)) (λ j h. ground arith)
      (λ h h' j. ground (arith, eq_iff k k))
Change-Step {s} (replaced k p h) v = elim (Option-cases (s.turns k)) [
  | inl free ↦
      moves k (ground (arith, eq_iff k k)) (λ j h. ground arith)
        (λ h h' j. ground (arith, eq_iff k k))
  | inr (r, used) ↦ absurd (ground (arith, v k r))
]
Change-Step {s} (discarded k h) v = elim (Option-cases (s.turns k)) [
  | inl free ↦
      moves k (ground (arith, eq_iff k k)) (λ j h. ground arith)
        (λ h h' j. ground (arith, eq_iff k k))
  | inr (r, used) ↦ absurd (ground (arith, v k r))
]
Change-Step {s} (started k p h l q) v = elim (Option-cases (s.turns k)) [
  | inr (r, used) ↦ absurd (ground (arith, v k r))
  | inl free ↦ elim (Option-cases s.active_turn) [
    | inr (r, busy) ↦ absurd (ground (arith, v k r))
    | inl none_active ↦
        moves k (ground (arith, eq_iff k k)) (λ j h. started_elsewhere s k p j v h)
          (λ h h' j. idle_active s j v none_active)
  ]
]
Change-Step {s} (settled r st res h t) v =
    cell_moves s (settle s r st res) r _ v h refl refl refl
      (end_allowed (s.cells r).status st ((v s.active r).live h) t)
Change-Step {s} (cancels r h) v =
    let new : TurnRecord = record (s.cells r) { status = TurnStatus.cancelling } in
    cell_moves s (record s { cells = store r new s.cells }) r new v h refl refl refl
      (resume_allowed (s.cells r).status TurnStatus.cancelling ((v s.active r).live h) refl
        (λ c. refl))
Change-Step (loses r h k l) v = idles (λ j. refl)
Change-Step {s} (resumes r st h l c) v =
    cell_moves s (resume s r st) r _ v h refl refl refl
      (resume_allowed (s.cells r).status st ((v s.active r).live h) l c)
Change-Step {s} (closes r st res h t) v =
    cell_moves s (reachable_again (settle s r st res)) r _ v h refl refl refl
      (end_allowed (s.cells r).status st ((v s.active r).live h) t)
Change-Step (recovers h) v = idles (λ j. refl)
Change-Step (connects c) v = idles (λ j. refl)
Change-Step (closes_session h k l) v = idles (λ j. refl)

-- The kernel implements the protocol: after any calls on a new session, whether they succeed or
-- fail, each further call makes a step of the protocol on the phases of the session's keys, which
-- are read off its pending prompts and the statuses of its turns.
pub kernel_refines :
    (id : Contributor) (lease : String) (s : Session) (cs : List Call) (c : Call)
    → new_session id lease ≡ ok s
    → Step (phase (run s cs)) (phase (step (run s cs) c))
kernel_refines id lease s cs c h =
    Change-Step (step-Change (run s cs) c) (new_session-run-Inv id lease s cs h)
