-- ===== src/Adapter/Stream/System.antt =====
-- Any number of goroutines over one stream of internal/adapter/stream.go, and its observer, who
-- receives from the channel.
use agent_council.Common.{ℕ, ltb, if◌then◌else◌, Option, none, some, List, [], ◌∷◌, ◌++◌}
use agent_council.Common.Int.{ℤ}
use agent_council.Common.Family.{with_at}
use agent_council.Adapter.Usage.{TurnRef}
use agent_council.Adapter.Event.{Event}
use agent_council.Adapter.Stream.{BufferedStream, new_buffered_stream, Pc, idle, Action, advance}

pub record System : Type 0 where
  pub stream : BufferedStream
  pub pc : ℕ → Pc
  pub received : List Event

-- A goroutine of the schedule takes an action, or the observer receives.
pub data Move : Type 0 where
  acts : (thread : ℕ) → Action → Move
  receives : Move

unfoldable pub settle : System → ℕ → Option (BufferedStream × Pc) → System
settle y i none = y
settle y i (some (s, p)) = record y { stream = s; pc = with_at i p y.pc }

unfoldable pub receive : System → List Event → System
receive y [] = y
receive y (e ∷ rest) = record y {
  stream = record (y.stream) { buffer = rest };
  received = y.received ++ (e ∷ []);
}

-- A thread whose index is not below `n` does not exist.
unfoldable pub step : ℕ → System → Move → System
unfolding settle receive
step n y (acts i a) = if ltb i n then settle y i (advance a y.stream (y.pc i)) else y
step n y receives = receive y y.stream.buffer

unfoldable pub run : ℕ → System → List Move → System
unfolding step
run n y [] = y
run n y (m ∷ ms) = run n (step n y m) ms

abbrev pub start : TurnRef → ℤ → System
start ref capacity = record {
  stream = new_buffered_stream ref capacity;
  pc = λ i. idle;
  received = [];
}
