-- ===== src/Storage/Attempts/Claude/Redispatch.antt =====
-- When `ReserveClaudeLaunch` of internal/storage/claude_state.go launches an attempt again.
use agent_council.Common.{◌≤◌, String, Bool, true, ◌≡◌, Option, none, some}
use agent_council.Storage.Attempts.Tables.{first_row}
use agent_council.Storage.Attempts.Claude.{ClaudeTurnAttempt, ClaudeLedger, of_attempt}

-- A second launch had its grounds.
pub record Guarded (attestations : String → Bool) (a : ClaudeTurnAttempt) : Type 0 where
  pub bounded : a.launch_count ≤ 2
  pub grounds :
      2 ≤ a.launch_count
      → (a.absence_redispatch_consumed ≡ true)
        × (a.transcript_protection ≡ "protected")
        × (attestations a.protection_attestation_id ≡ true)
        × (a.absence_verified ≡ "verified")

-- What holds of the row that the lookup of an attempt id finds.
abbrev pub Found : (ClaudeTurnAttempt → Type 0) → Option ClaudeTurnAttempt → Type 0
Found P none = Unit
Found P (some a) = P a

abbrev pub AllGuarded : ClaudeLedger → Type 0
AllGuarded l = (id : String) → Found (Guarded l.attestations) (first_row (of_attempt id) l.attempts)
