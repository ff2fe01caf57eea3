-- ===== src/Council/Session/Finality.antt =====
-- internal/council/domain.go: what is refused for good, whatever calls come later.
use agent_council.Common.{
  ℕ, ◌+◌, ◌<◌, ◌≤◌, ◌^◌, String, ◌≡◌, ◌≢◌, inl, inr, true, false, none, some, Option-cases,
  Bool-cases, arith, eq_iff, ok, List, [], ◌∷◌, length, suc,
}
use agent_council.Council.Status.{TurnStatus, is_lost}
use agent_council.Council.Session.State.{Session, TurnRecord}
use agent_council.Council.Session.Prompts.{queue, discard, replace}
use agent_council.Council.Session.Turns.{start_turn, settle, release}
use agent_council.Council.Session.Recovery.{reconcile_host}
use agent_council.Council.Session.Step.{Call, step, run}
use agent_council.Council.Session.Change.{Change, keeps, loses, step-Change}
use agent_council.Council.Session.Invariant.{Inv, run-Inv}
use agent_council.Council.Session.History.{turn_at, run-Kept}

-- The generation `gen` is behind the session: no open episode has it, nor will the next `left`.
record Spent (gen left : ℕ) (s : Session) : Type 0 where
  counted : gen ≤ s.recovery_generation
  unwrapped : s.recovery_generation + left < 2 ^ 64
  closed : is_lost s.visibility ≡ true → gen < s.active_recovery_gen

Change-Spent :
    {s t : Session} (gen left : ℕ) → Change s t → Spent gen (suc left) s → Spent gen left t
unfolding start_turn settle
Change-Spent gen left keeps p = ground (arith, p)
Change-Spent gen left (loses r h k l) p = ground (arith, p)
Change-Spent gen left _ p = ground (arith, p)

run-Spent :
    (s : Session) (cs : List Call) (gen : ℕ) → Spent gen (length cs) s → Spent gen 0 (run s cs)
unfolding run
run-Spent s [] gen p = p
run-Spent s (c ∷ cs) gen p =
    run-Spent (step s c) cs gen (Change-Spent gen (length cs) (step-Change s c) p)

Spent-refused :
    (s u : Session) (k : String) (gen : ℕ) (status : TurnStatus) (result : String)
    → Spent gen 0 s
    → reconcile_host s k gen status result ≢ ok u
unfolding reconcile_host
Spent-refused s u k gen status result p h = ground (arith, p, Bool-cases (is_lost s.visibility))

-- What a reconciliation that succeeds has checked and leaves.
record Reconciled (s t : Session) (k : String) (gen : ℕ) : Type 0 where
  pub latest : gen ≡ s.recovery_generation
  pub unmoved : t.recovery_generation ≡ s.recovery_generation
  pub episode : gen ≡ s.active_recovery_gen
  pub context : k ≡ s.recovery_context
  pub reachable : is_lost t.visibility ≡ false

reconcile_host-Reconciled :
    (s t : Session) (k : String) (gen : ℕ) (status : TurnStatus) (result : String)
    → Inv s
    → reconcile_host s k gen status result ≡ ok t
    → Reconciled s t k gen
unfolding reconcile_host settle
reconcile_host-Reconciled s t k gen TurnStatus.running result v h =
    elim (Option-cases s.active_turn) [
      | inl idle ↦ absurd (ground arith)
      | inr (r, e) ↦ ground (arith, v k r, eq_iff k s.active)
    ]
reconcile_host-Reconciled s t k gen _ result v h = elim (Option-cases s.active_turn) [
  | inl idle ↦ ground (arith, v k 0, eq_iff k s.recovery_context)
  | inr (r, e) ↦ ground (arith, v k r, eq_iff k s.active)
]

-- In a session that satisfies the invariant, a reconciliation that succeeds names the open recovery
-- episode, by its generation and by the turn that was active when the host was lost, and closes it.
-- The reference is good only once: after any later calls, host losses among them, no reconciliation
-- with the same generation succeeds, for any turn, as long as the uint64 that counts the
-- generations cannot have wrapped.
pub reconcile_once :
    (s t u : Session) (k j : String) (gen : ℕ) (status again : TurnStatus) (result other : String)
    (cs : List Call)
    → Inv s
    → s.recovery_generation + length cs < 2 ^ 64
    → reconcile_host s k gen status result ≡ ok t
    → (gen ≡ s.active_recovery_gen)
      × (k ≡ s.recovery_context)
      × (is_lost t.visibility ≡ false)
      × (reconcile_host (run t cs) j gen again other ≢ ok u)
reconcile_once s t u k j gen status again result other cs v short h =
    let d = reconcile_host-Reconciled s t k gen status result v h in
    let spent : Spent gen (length cs) t = record {
      counted = ground (arith, d);
      unwrapped = ground (arith, d);
      closed = ground (arith, d);
    } in
    (
      d.episode,
      d.context,
      d.reachable,
      Spent-refused (run t cs) u j gen again other (run-Spent t cs gen spent),
    )

-- The calls that would give a key another turn or another prompt.
pub record Refused (s : Session) (k : String) : Type 0 where
  pub queueing : (lease p : String) (u : Session) → queue s lease k p ≢ ok u
  pub replacing : (lease p : String) (u : Session) → replace s lease k p ≢ ok u
  pub discarding : (lease : String) (u : Session) → discard s lease k ≢ ok u
  pub releasing : (lease p : String) (u : Session) → release s lease k ≢ ok (p, u)

used-Refused :
    (s : Session) (k : String) (t : TurnRecord) → Inv s → turn_at s k ≡ some t → Refused s k
unfolding queue replace discard release
used-Refused s k t v h = elim (Option-cases (s.turns k)) [
  | inl free ↦ absurd (ground arith)
  | inr (r, used) ↦
      let waiting : s.pending k ≡ none = (v k r).retired used in
      record {
        queueing = λ lease p u e. ground arith;
        replacing = λ lease p u e. ground arith;
        discarding = λ lease u e. ground arith;
        releasing = λ lease p u e. ground arith;
      }
]

-- A key serves one turn. In a session that satisfies the invariant, where the key has a turn, then
-- after any calls, and for any caller, no prompt is queued under the key, and none is replaced,
-- discarded or released there.
pub key_serves_once :
    (s : Session) (k : String) (t : TurnRecord) (cs : List Call)
    → Inv s
    → turn_at s k ≡ some t
    → Refused (run s cs) k
key_serves_once s k t cs v h =
    let (u, found, kept) = run-Kept s cs k t v h in
    used-Refused (run s cs) k u (run-Inv s cs v) found
