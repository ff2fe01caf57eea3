-- ===== src/Council/Session/History.antt =====
-- What a history of calls on a session of internal/council/domain.go can and cannot do to its turns.
use agent_council.Common.{
  ℕ, String, ◌≡◌, refl, ◌≢◌, ◌⊎◌, inl, inr, true, Option, none, some, Option-cases, Bool-cases, ap,
  sym, ◌∙◌, text_eq, arith, eq_iff, ok, List, [], ◌∷◌,
}
use agent_council.Council.Status.{TurnStatus, is_terminal, turn_cancelling}
use agent_council.Council.Session.State.{Session, TurnRecord, authorize}
use agent_council.Council.Session.Prompts.{queue, discard, replace}
use agent_council.Council.Session.Turns.{
  start_turn, settle, release, complete, complete_with_result, request_cancel, confirm_cancel,
  interrupt, fail,
}
use agent_council.Council.Session.Recovery.{record_host_loss, reconcile_host}
use agent_council.Council.Session.Control.{disconnect_controller, reconnect_controller, archive}
use agent_council.Council.Session.Step.{Call, releases, reconciles, step, run}
use agent_council.Council.Session.Change.{
  Change, keeps, started, settled, cancels, resumes, closes, step-Change,
}
use agent_council.Council.Session.Invariant.{At, Inv, step-Inv}

-- The turn with key `k`.
abbrev pub turn_at : Session → String → Option TurnRecord
turn_at s k = elim (s.turns k) [ none ↦ none | some r ↦ some (s.cells r) ]

-- What a change leaves of a turn: its key and prompt, all of it once it has ended, and a requested
-- cancellation until the end.
pub record Kept (t u : TurnRecord) : Type 0 where
  pub same_key : u.key ≡ t.key
  pub same_prompt : u.prompt ≡ t.prompt
  pub ended : is_terminal t.status ≡ true → u ≡ t
  pub cancelling :
      turn_cancelling t.status ≡ true
      → (u.status ≡ TurnStatus.cancelling) ⊎ (is_terminal u.status ≡ true)

Change-Kept :
    {s s' : Session}
    → Change s s'
    → (k : String) (r : ℕ) → At s k r
    → s.turns k ≡ some r
    → (s'.turns k ≡ some r) × Kept (s.cells r) (s'.cells r)
unfolding start_turn settle
Change-Kept keeps k r v e = grind arith
Change-Kept (started k' p h l q) k r v e = ground (arith, eq_iff k' k)
Change-Kept (settled r' st res h z) k r v e = ground arith
Change-Kept (cancels r' h) k r v e = ground arith
Change-Kept (resumes r' st h l c) k r v e = ground arith
Change-Kept (closes r' st res h z) k r v e = ground arith
Change-Kept _ k r v e = ground arith

Change-Kept_at :
    {s s' : Session}
    → Change s s'
    → Inv s
    → (k : String) {t : TurnRecord} → turn_at s k ≡ some t
    → (u : TurnRecord) × (turn_at s' k ≡ some u) × Kept t u
Change-Kept_at {s} {s'} c v k {t} h = elim (Option-cases (s.turns k)) [
  | inl e ↦ absurd (ground arith)
  | inr (r, e) ↦
      let (e', kept) = Change-Kept c k r (v k r) e in
      let same : s.cells r ≡ t = ground arith in (s'.cells r, rw (e', turn_at), rw same at kept)
]

Kept-trans : (t u w : TurnRecord) → Kept t u → Kept u w → Kept t w
Kept-trans t u w a b = ground arith

Kept-refl : (t : TurnRecord) → Kept t t
Kept-refl t = grind arith

-- From a session that satisfies the invariant, no history of calls forgets a turn, rewrites its key
-- or prompt, changes anything of a turn that has ended, or takes a requested cancellation back
-- before the turn ends.
pub run-Kept :
    (s : Session) (cs : List Call) (k : String) (t : TurnRecord)
    → Inv s
    → turn_at s k ≡ some t
    → (u : TurnRecord) × (turn_at (run s cs) k ≡ some u) × Kept t u
unfolding run
run-Kept s [] k t v h = (t, h, Kept-refl t)
run-Kept s (c ∷ cs) k t v h =
    let (u, hu, a) = Change-Kept_at (step-Change s c) v k h in
    let (w, hw, b) = run-Kept (step s c) cs k u (step-Inv s c v) hu in (w, hw, Kept-trans t u w a b)

-- A turn comes into being only by a release of its own pending prompt, and then it runs that prompt.
pub Change-new_turn :
    {s s' : Session}
    → Change s s'
    → (k : String) → s.turns k ≡ none
    → (s'.turns k ≡ none) ⊎ ((p : String) × (s.pending k ≡ some p) × (s' ≡ start_turn s k p))
unfolding start_turn settle
Change-new_turn keeps k e = inl e
Change-new_turn {s} (started k' p h l q) k e = elim (Bool-cases (text_eq k' k)) [
  | inl same ↦
      let here : k' ≡ k = (eq_iff k' k).0 same in
      inr (p, ground arith, ap (λ j. start_turn s j p) here)
  | inr other ↦ inl (rw other e)
]
Change-new_turn _ k e = inl e

-- Only a release takes a new cell.
step-next_cell :
    (s : Session) (c : Call)
    → ((lease k : String) × (c ≡ releases lease k)) ⊎ ((step s c).next_cell ≡ s.next_cell)
unfolding step queue discard replace complete complete_with_result request_cancel confirm_cancel
    interrupt fail record_host_loss reconcile_host reconnect_controller archive
    disconnect_controller
step-next_cell s (releases lease k) = inl (lease, k, refl)
step-next_cell s (reconciles key gen TurnStatus.running result) = inr (ground arith)
step-next_cell s (reconciles key gen _ result) = inr (ground arith)
step-next_cell s _ = inr (ground arith)

-- A call after which a key has a turn that it had not before is a release of that key by an
-- authorized caller, and it starts the key's pending prompt.
pub step_new_turn :
    (s : Session) (c : Call) (k : String)
    → s.turns k ≡ none
    → (step s c).turns k ≢ none
    → (lease p : String) × (c ≡ releases lease k)
      × (authorize s lease ≡ ok tt)
      × (s.pending k ≡ some p)
      × (step s c ≡ start_turn s k p)
unfolding step release
step_new_turn s (releases lease k') k e n = elim (Option-cases (s.pending k')) [
  | inl missing ↦ absurd (ground (arith, n))
  | inr (p, waits) ↦
      let here : k' ≡ k = ground (arith, n, eq_iff k' k) in
      (lease, p, ground (arith, n), ground (arith, n), ground (arith, n), ground (arith, n))
]
step_new_turn s c k e n = absurd (elim (Change-new_turn (step-Change s c) k e) [
  | inl same ↦ n same
  | inr (p, waits, begun) ↦ elim (step-next_cell s c) [
    | inl (lease, k', is_release) ↦ cc
    | inr quiet ↦ omega (arith, sym quiet ∙ ap (λ t. t.next_cell) begun)
  ]
])
