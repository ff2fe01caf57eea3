-- ===== src/Storage/Grants/Leases.antt =====
-- internal/storage: the rows of `controller_leases` under the updates of the grants.
use agent_council.Common.{
  ℕ, ◌≤◌, String, ◌≡◌, refl, true, List, [], ◌∷◌, none, some, is_some, text_eq, arith,
}
use agent_council.Storage.Rows.{LeaseRow}
use agent_council.Storage.Authority.{find_lease, active_in, retired_in, provenance_in}
use agent_council.Storage.Grants.Install.{update_leases, latest, next_grant, supersede}
use agent_council.Storage.Grants.Adopt.{hand_over}
use agent_council.Storage.Grants.Revoke.{grant_at, revoke_grant}

-- No row of a run has the generation that the run's next grant gets, or a later one.
pub next_grant-fresh :
    (gs : List LeaseRow) (run : String) (n : ℕ)
    → next_grant gs run ≤ n
    → find_lease (grant_at run n) gs ≡ none
unfolding find_lease next_grant latest
next_grant-fresh [] run n h = refl
next_grant-fresh (g ∷ gs) run n h = ground (arith, next_grant-fresh gs run n)

-- A handoff leaves no active grant of the run, and the one it retires is remembered.
pub hand_over-none :
    (gs : List LeaseRow) (run : String)
    → find_lease (active_in run) (update_leases (active_in run) hand_over gs) ≡ none
unfolding find_lease update_leases
hand_over-none [] run = refl
hand_over-none (g ∷ gs) run = ground (arith, hand_over-none gs run)

pub hand_over-retired :
    (gs : List LeaseRow) (run lease : String) (g : LeaseRow)
    → find_lease (active_in run) gs ≡ some g
    → text_eq g.lease lease ≡ true
    → is_some (find_lease (retired_in run lease) (update_leases (active_in run) hand_over gs))
      ≡ true
unfolding find_lease update_leases
hand_over-retired [] run lease g h e = cc
hand_over-retired (x ∷ gs) run lease g h e = ground (arith, hand_over-retired gs run lease g)

pub supersede-retired :
    (gs : List LeaseRow) (run lease : String)
    → is_some (find_lease (retired_in run lease) gs) ≡ true
    → is_some (find_lease (retired_in run lease) (update_leases (provenance_in run) supersede gs))
      ≡ true
unfolding find_lease update_leases
supersede-retired [] run lease h = h
supersede-retired (g ∷ gs) run lease h = ground (arith, supersede-retired gs run lease)

pub revoke-retired :
    (gs : List LeaseRow) (run lease : String) (g : LeaseRow)
    → find_lease (active_in run) gs ≡ some g
    → text_eq g.lease lease ≡ true
    → is_some (
        find_lease
          (retired_in run lease)
          (update_leases (grant_at run g.generation) revoke_grant gs))
      ≡ true
unfolding find_lease update_leases
revoke-retired [] run lease g h e = cc
revoke-retired (x ∷ gs) run lease g h e = ground (arith, revoke-retired gs run lease g)
