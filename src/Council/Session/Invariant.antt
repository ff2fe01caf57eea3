-- ===== src/Council/Session/Invariant.antt =====
-- What holds of a session of internal/council/domain.go between two calls.
use agent_council.Common.{
  ℕ, ◌<◌, String, ◌≡◌, true, false, ◌||◌, none, some, arith, eq_iff, ok, List, [], ◌∷◌,
}
use agent_council.Council.Contributor.{Contributor}
use agent_council.Council.Status.{
  is_archived, lifecycle_archived, is_running, is_lost, is_live, is_terminal,
}
use agent_council.Council.Session.State.{Session, new_session}
use agent_council.Council.Session.Turns.{start_turn, settle}
use agent_council.Council.Session.Step.{Call, step, run}
use agent_council.Council.Session.Change.{
  Change, keeps, queued, replaced, discarded, started, settled, cancels, loses, resumes, closes,
  recovers, connects, closes_session, step-Change,
}

-- What the invariant says of the key `k` and the cell `r`.
pub record At (s : Session) (k : String) (r : ℕ) : Type 0 where
  pub together : is_archived s.state ≡ lifecycle_archived s.lifecycle
  pub idle : s.active_turn ≡ none → (is_running s.state ≡ false) × (s.active ≡ "")
  pub reachable_clear :
      is_lost s.visibility ≡ false → (s.recovery_context ≡ "") × (s.active_recovery_gen ≡ 0)
  pub lost_open : is_lost s.visibility ≡ true → is_archived s.state ≡ false
  pub lost_latest : is_lost s.visibility ≡ true → s.active_recovery_gen ≡ s.recovery_generation
  pub registered : s.active_turn ≡ some r → s.turns s.active ≡ some r
  pub live : s.active_turn ≡ some r → is_live (s.cells r).status ≡ true
  pub runs : s.active_turn ≡ some r → is_running s.state ≡ true
  pub lost_context :
      s.active_turn ≡ some r → is_lost s.visibility ≡ true → s.recovery_context ≡ s.active
  pub allocated : s.turns k ≡ some r → r < s.next_cell
  pub keyed : s.turns k ≡ some r → (s.cells r).key ≡ k
  pub single : s.turns k ≡ some r → is_live (s.cells r).status ≡ true → s.active_turn ≡ some r
  pub decided :
      s.turns k ≡ some r → is_live (s.cells r).status || is_terminal (s.cells r).status ≡ true
  pub retired : s.turns k ≡ some r → s.pending k ≡ none

abbrev pub Inv : Session → Type 0
Inv s = (k : String) (r : ℕ) → At s k r

-- A new session satisfies the invariant.
pub new_session-Inv :
    (id : Contributor) (lease : String) (s : Session) → new_session id lease ≡ ok s → Inv s
unfolding new_session
new_session-Inv id lease s h k r = grind arith

Change-Inv : {s t : Session} → Change s t → Inv s → Inv t
unfolding start_turn settle
Change-Inv keeps v j i = v j i
Change-Inv (queued k p b n m) v j i = ground (arith, v j i, eq_iff k j)
Change-Inv (replaced k p h) v j i = ground (arith, v j i, v k i, eq_iff k j)
Change-Inv (discarded k h) v j i = ground (arith, v j i, eq_iff k j)
Change-Inv (started k p h l q) v j i = ground (arith, v j i, v k i, eq_iff k j, eq_iff k k)
Change-Inv (settled r st res h t) v j i = ground (arith, v j i, v j r)
Change-Inv (cancels r h) v j i = ground (arith, v j i, v j r)
Change-Inv (loses r h k l) v j i = ground (arith, v j i, v j r)
Change-Inv (resumes r st h l c) v j i = ground (arith, v j i, v j r)
Change-Inv (closes r st res h t) v j i = ground (arith, v j i, v j r)
Change-Inv (recovers h) v j i = ground (arith, v j i)
Change-Inv (connects c) v j i = ground (arith, v j i)
Change-Inv (closes_session h k l) v j i = ground (arith, v j i)

-- Every call of a method keeps the invariant, whether it succeeds or fails.
pub step-Inv : (s : Session) (c : Call) → Inv s → Inv (step s c)
step-Inv s c = Change-Inv (step-Change s c)

pub run-Inv : (s : Session) (cs : List Call) → Inv s → Inv (run s cs)
unfolding run
run-Inv s [] v = v
run-Inv s (c ∷ cs) v = run-Inv (step s c) cs (step-Inv s c v)

-- After any calls on a new session, whether they succeed or fail, the invariant holds: the active
-- turn, and no other, is running or cancelling, it is registered under the active key, and a key
-- that a turn has used has no pending prompt; a session without an active turn does not run; and a
-- lost host has its latest recovery generation open.
pub new_session-run-Inv :
    (id : Contributor) (lease : String) (s : Session) (cs : List Call)
    → new_session id lease ≡ ok s
    → Inv (run s cs)
new_session-run-Inv id lease s cs h = run-Inv s cs (new_session-Inv id lease s h)
