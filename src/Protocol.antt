-- ===== src/Protocol.antt =====
-- What the domain kernel (internal/council/domain.go) and the durable store (internal/storage) both
-- promise of the turns of a session: each key has a phase, one key moves at a time, a phase moves
-- only forward, and no turn starts while another one of the session is active.
pub mod Kernel
pub mod Store
use agent_council.Common.{Bool, true, false, String, text_eq, ◌≡◌}
use agent_council.Council.Status.{TurnStatus}

pub data Phase : Type 0 where
  absent queued running cancelling invalid : Phase
  ended : TurnStatus → Phase

abbrev pub phase_of_status : TurnStatus → Phase
phase_of_status TurnStatus.running = running
phase_of_status TurnStatus.cancelling = cancelling
phase_of_status TurnStatus.completed = ended TurnStatus.completed
phase_of_status TurnStatus.cancelled = ended TurnStatus.cancelled
phase_of_status TurnStatus.failed = ended TurnStatus.failed
phase_of_status TurnStatus.interrupted = ended TurnStatus.interrupted
phase_of_status _ = invalid

abbrev pub is_active : Phase → Bool
is_active running = true
is_active cancelling = true
is_active _ = false

-- A queued prompt may be replaced, discarded or released; an active turn may be asked to stop, and
-- ends; an end is for good.
abbrev pub allowed : Phase → Phase → Bool
allowed absent queued = true
allowed queued queued = true
allowed queued absent = true
allowed queued running = true
allowed running running = true
allowed running cancelling = true
allowed running (ended status) = true
allowed cancelling cancelling = true
allowed cancelling (ended status) = true
allowed _ _ = false

-- The phases of the keys of one session, before and after a step.
pub data Step (v w : String → Phase) : Type 0 where
  idles : ((j : String) → w j ≡ v j) → Step v w
  moves :
      (k : String)
      → allowed (v k) (w k) ≡ true
      → ((j : String) → text_eq k j ≡ false → w j ≡ v j)
      → (is_active (v k) ≡ false → is_active (w k) ≡ true → (j : String) → is_active (v j) ≡ false)
      → Step v w
