-- ===== src/Service/Coordinator/Observers.antt =====
-- internal/service/coordinator.go: the observers of a turn and their channels. The map from a turn
-- to its channels is kept as the list of its pairs; a channel is the number of its registration.
pub mod Delivery
pub mod Safety
pub mod Broadcast
use agent_council.Common.{
  ℕ, suc, ◌+◌, ltb, ◌==◌, String, Bool, true, false, not, ◌&&◌, ◌||◌, length, if◌then◌else◌, List,
  [], ◌∷◌, ◌++◌,
}
use agent_council.Common.Family.{with_at}
use agent_council.Adapter.Usage.{TurnRef}
use agent_council.Service.Coordinator.{same_ref}

pub record SseEvent : Type 0 where
  pub event : String
  pub body : String

pub record Channel : Type 0 where
  pub queue : List SseEvent
  pub closed : Bool

abbrev pub channel_capacity : ℕ
channel_capacity = 64

-- `unsubscribed` is the `sync.Once` of each `unsub`; `panicked` is set by a send on a closed channel
-- and by a second close.
pub record Observers : Type 0 where
  pub subscribers : List (TurnRef × ℕ)
  pub channels : ℕ → Channel
  pub opened : ℕ
  pub unsubscribed : ℕ → Bool
  pub panicked : Bool

unfoldable pub no_observers : Observers
no_observers = record {
  subscribers = [];
  channels = λ i. record { queue = []; closed = false };
  opened = 0;
  unsubscribed = λ i. false;
  panicked = false;
}

unfoldable pub register_subscriber : TurnRef → Observers → Observers
register_subscriber ref o = record o {
  subscribers = o.subscribers ++ ((ref, o.opened) ∷ []);
  opened = suc o.opened;
}

-- The first pair of the channel, as the loop of `unsub` finds it.
unfoldable pub remove_first : ℕ → List (TurnRef × ℕ) → List (TurnRef × ℕ)
remove_first i [] = []
remove_first i ((r, j) ∷ subs) = if i == j then subs else (r, j) ∷ remove_first i subs

-- The `unsub` of the channel `i`.
unfoldable pub unsubscribe : ℕ → Observers → Observers
unfolding remove_first
unsubscribe i o = if o.unsubscribed i then o else record o {
  unsubscribed = with_at i true o.unsubscribed;
  subscribers = remove_first i o.subscribers;
}

-- `close(ch)`.
pub close_channel : ℕ → Observers → Observers
close_channel i o =
    if (o.channels i).closed
    then record o { panicked = true }
    else record o { channels = with_at i (record (o.channels i) { closed = true }) o.channels }

-- `ch <- ev`, where there is room.
send : ℕ → SseEvent → Observers → Observers
send i e o = if (o.channels i).closed then record o { panicked = true } else record o {
  channels =
      with_at i (record (o.channels i) { queue = (o.channels i).queue ++ (e ∷ []) }) o.channels;
}

abbrev pub has_room : Channel → Bool
has_room c = ltb (length c.queue) channel_capacity

-- A send on a closed channel panics whether it is full or not.
pub offer : ℕ → SseEvent → Observers → Observers
unfolding send close_channel
offer i e o =
    if has_room (o.channels i) || (o.channels i).closed then send i e o else close_channel i o

-- The loop of `BroadcastEvent`: the pairs that remain, and the channels.
unfoldable pub deliver :
    TurnRef → SseEvent → List (TurnRef × ℕ) → Observers → List (TurnRef × ℕ) × Observers
unfolding offer
deliver ref e [] o = ([], o)
deliver ref e ((r, i) ∷ subs) o =
    let here = same_ref ref r in
    let (rest, p) = deliver ref e subs (if here then offer i e o else o) in
    (if here && not (has_room (o.channels i)) then rest else (r, i) ∷ rest, p)

unfoldable pub broadcast_event : TurnRef → SseEvent → Observers → Observers
broadcast_event ref e o =
    let (remaining, p) = deliver ref e o.subscribers o in record p { subscribers = remaining }

unfoldable pub close_each : List (TurnRef × ℕ) → Observers → Observers
unfolding close_channel
close_each [] o = o
close_each ((r, i) ∷ subs) o = close_each subs (close_channel i o)

unfoldable pub close_all_subscribers : Observers → Observers
close_all_subscribers o = record (close_each o.subscribers o) { subscribers = [] }

-- The observer of the channel receives.
unfoldable pub receive : ℕ → Observers → Observers
receive i o = elim ((o.channels i).queue) [
  | [] ↦ o
  | e ∷ rest ↦ record o { channels = with_at i (record (o.channels i) { queue = rest }) o.channels }
]

pub data Signal : Type 0 where
  registers : TurnRef → Signal
  unsubscribes receives : ℕ → Signal
  broadcasts : TurnRef → SseEvent → Signal
  closes_all : Signal

unfoldable pub signal : Signal → Observers → Observers
signal (registers ref) o = register_subscriber ref o
signal (unsubscribes i) o = unsubscribe i o
signal (receives i) o = receive i o
signal (broadcasts ref e) o = broadcast_event ref e o
signal closes_all o = close_all_subscribers o

unfoldable pub signals : List Signal → Observers → Observers
unfolding signal
signals [] o = o
signals (s ∷ ss) o = signals ss (signal s o)
