-- ===== src/Storage/Attempts/Claude/Deaths.antt =====
-- `RecordClaudeLaunchState` of internal/storage/claude_state.go on the death of a launch.
use agent_council.Common.{
  ℕ, String, ◌≡◌, refl, ◌≢◌, arith, eq_iff, decimal, Option, List, [], ◌∷◌, ok,
}
use agent_council.Common.Int.{ℤ}
use agent_council.Storage.Attempts.Tables.{update_where, first_row}
use agent_council.Storage.Attempts.Claude.{
  ClaudeLaunch, ClaudeLedger, LaunchReport, launch_at, bound_dead, record_claude_launch_state,
}

bound_elsewhere :
    (id : String) (seq at : ℕ) (code : Option ℤ) (f : ClaudeLaunch → ClaudeLaunch)
    (rows : List ClaudeLaunch)
    → id ≢ decimal seq
    → ((r : ClaudeLaunch)
        → ((f r).attempt_id ≡ r.attempt_id) × ((f r).reservation_seq ≡ r.reservation_seq))
    → first_row (launch_at id at) (update_where (bound_dead seq code) f rows)
      ≡ first_row (launch_at id at) rows
unfolding first_row update_where
bound_elsewhere id seq at code f [] other same = refl
bound_elsewhere id seq at code f (r ∷ rows) other same = ground (
  arith,
  same r,
  eq_iff r.attempt_id id,
  eq_iff r.attempt_id (decimal seq),
  bound_elsewhere id seq at code f rows other same,
)

-- The death of a launch is not recorded: the statement binds its arguments in another order than
-- that of its columns, so unless the attempt's id is the decimal text of the reservation number, the
-- call succeeds and leaves every launch of the attempt as it was.
pub death_is_lost :
    (id : String) (seq : ℕ) (code : Option ℤ) (l : ClaudeLedger)
    → id ≢ decimal seq
    → (l' : ClaudeLedger) × (record_claude_launch_state id seq (LaunchReport.dead code) l ≡ ok l')
      × ((at : ℕ)
          → first_row (launch_at id at) l'.launches ≡ first_row (launch_at id at) l.launches)
unfolding record_claude_launch_state
death_is_lost id seq code l other =
    (_, refl, λ at. bound_elsewhere id seq at code _ l.launches other (λ r. (refl, refl)))
