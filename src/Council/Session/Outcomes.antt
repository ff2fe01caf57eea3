-- ===== src/Council/Session/Outcomes.antt =====
-- When the methods of internal/council/domain.go succeed, and with what.
use agent_council.Common.{
  String, ◌≡◌, refl, ◌≢◌, inl, inr, true, false, none, some, Option-cases, arith, eq_iff, ok,
}
use agent_council.Council.Status.{
  TurnStatus, is_archived, lifecycle_archived, is_parked, is_lost, is_disconnected,
}
use agent_council.Council.Session.State.{Session, TurnRecord, authorize}
use agent_council.Council.Session.Prompts.{queue}
use agent_council.Council.Session.Turns.{start_turn, release}
use agent_council.Council.Session.History.{turn_at}
use agent_council.Council.Session.Invariant.{Inv}

-- Who may give the session commands.
pub record Authorized (s : Session) (lease : String) : Type 0 where
  pub presented : lease ≢ ""
  pub matches : lease ≡ s.controller_lease
  pub open_lifecycle : lifecycle_archived s.lifecycle ≡ false
  pub open_state : is_archived s.state ≡ false
  pub connected : is_disconnected s.controller_status ≡ false

-- What a release of the prompt `p` under the key `k` asks for.
pub record Ready (s : Session) (lease k p : String) : Type 0 where
  pub authorized : Authorized s lease
  pub reachable : is_lost s.visibility ≡ false
  pub is_idle : is_parked s.state ≡ true
  pub waiting : s.pending k ≡ some p

abbrev pub running_turn : String → String → TurnRecord
running_turn k p = record { key = k; prompt = p; status = TurnStatus.running; result = "" }

-- In a session that satisfies the invariant, a release returns the prompt `p` exactly when the
-- caller is authorized, the host is reachable, the session is parked and `p` is pending under the
-- key. The turn of the key then runs `p` as the active turn, and the prompt is pending no more.
pub release_exact :
    (s : Session) (lease k p : String)
    → Inv s
    → (Ready s lease k p
        → (t : Session) × (release s lease k ≡ ok (p, t))
          × (turn_at t k ≡ some (running_turn k p))
          × (t.active ≡ k)
          × (t.pending k ≡ none))
      × ((t : Session) → release s lease k ≡ ok (p, t) → Ready s lease k p)
unfolding release authorize
release_exact s lease k p v = (
  λ r. (
    start_turn s k p,
    ground (arith, eq_iff lease "", eq_iff lease s.controller_lease, no_active r),
    ground (arith, eq_iff k k),
    refl,
    ground (arith, eq_iff k k),
  ),
  λ t h. ground (arith, eq_iff lease "", eq_iff lease s.controller_lease),
)
  where
    no_active : Ready s lease k p → s.active_turn ≡ none
    no_active r = elim (Option-cases s.active_turn) [
      | inl e ↦ e
      | inr (i, e) ↦ ground (arith, v k i)
    ]

-- Queueing the same prompt again succeeds and changes nothing more.
pub queue_idem :
    (s t : Session) (lease k p : String) → queue s lease k p ≡ ok t → queue t lease k p ≡ ok t
unfolding queue
queue_idem s t lease k p h = ground (arith, eq_iff k k, eq_iff p p)
