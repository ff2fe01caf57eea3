-- ===== src/Adapter/Stream.antt =====
-- internal/adapter/stream.go: `BufferedStream`, and the goroutines that send on it and close it.
--
-- A section of the code under the stream's mutex does not block, so it is one step. The steps
-- between them are the shared accesses of the code: the `select`, `wg.Done`, `wg.Wait`, the two
-- `close` calls and the wait on `done`. What Go answers with a panic (a send on a closed channel, a
-- second close, a negative counter) leads to `panicked`.
pub mod System
pub mod Invariant
pub mod Order
pub mod Shutdown
use agent_council.Common.{
  ℕ, zero, suc, ◌-◌, Bool, true, false, not, ◌&&◌, ◌||◌, ltb, length, if◌then◌else◌, text_eq,
  Option, none, some, List, [], ◌∷◌, ◌++◌, Result, ok, err, ◌>>=◌, ◌>>◌, fail_if,
}
use agent_council.Common.Int.{ℤ, pos, negsuc}
use agent_council.Adapter.Usage.{TurnRef, EventError}
use agent_council.Adapter.Event.{Event, validate_event}

abbrev pub default_buffer_capacity : ℕ
default_buffer_capacity = 64

-- `wg` is the counter of the wait group; `cancelled` is the state of the context.
pub record BufferedStream : Type 0 where
  pub ref : TurnRef
  pub capacity : ℕ
  pub buffer : List Event
  pub events_closed : Bool
  pub cancelled : Bool
  pub done_closed : Bool
  pub wg : ℕ
  pub error : Option EventError
  pub closed : Bool

unfoldable pub buffer_capacity : ℤ → ℕ
buffer_capacity (pos zero) = default_buffer_capacity
buffer_capacity (pos (suc n)) = suc n
buffer_capacity (negsuc n) = default_buffer_capacity

unfoldable pub new_buffered_stream : TurnRef → ℤ → BufferedStream
unfolding buffer_capacity
new_buffered_stream ref capacity = record {
  ref = ref;
  capacity = buffer_capacity capacity;
  buffer = [];
  events_closed = false;
  cancelled = false;
  done_closed = false;
  wg = 0;
  error = none;
  closed = false;
}

-- `Send` waits for room; `SendOrOverflow` closes the stream instead.
pub data Sender : Type 0 where
  waits overflows : Sender

-- Where a goroutine stands in `Send`, `SendOrOverflow` or `CloseWithErr`. `answer` is what the
-- running call will return.
pub data Pc : Type 0 where
  idle : Pc
  selecting : Sender → Event → Pc  -- after `wg.Add(1)`, before the `select`
  leaving : (answer : Option EventError) → Pc  -- after the `select`, before `wg.Done()`
  overflowing : Pc  -- in the `default` case, before `wg.Done()`
  closing : EventError → (answer : Option EventError) → Pc  -- at the start of `CloseWithErr`
  awaiting : (answer : Option EventError) → Pc  -- at `<-s.done`
  draining : (answer : Option EventError) → Pc  -- at `s.wg.Wait()`
  drained : (answer : Option EventError) → Pc  -- before `close(s.events)`
  finishing : (answer : Option EventError) → Pc  -- before `close(s.done)`
  returned : (answer : Option EventError) → Pc
  panicked : Pc

-- The checks before the lock.
unfoldable pub admit : TurnRef → Event → Result EventError (Unit {0})
admit ref e = do
  fail_if (not (text_eq e.ref.session_id ref.session_id && text_eq e.ref.turn_key ref.turn_key))
      EventError.wrong_ref
  validate_event e

-- What a goroutine does next: it calls, or it goes on, where a `select` takes the case of the
-- context or another one.
pub data Action : Type 0 where
  sends : Sender → Event → Action
  closes : EventError → Action
  goes_on sees_cancel : Action

begin_send : Sender → Event → BufferedStream → Result EventError (Unit {0}) → BufferedStream × Pc
begin_send how e s (err reason) = (s, returned (some reason))
begin_send how e s (ok tt) =
    if s.closed
    then (s, returned (some EventError.stream_closed))
    else (record s { wg = suc s.wg }, selecting how e)

abbrev is_waiting : Sender → Bool
is_waiting Sender.waits = true
is_waiting Sender.overflows = false

-- The cases of the `select` other than `<-s.ctx.Done()`. `default` is taken where none is ready.
select_case : Sender → Event → BufferedStream → Option (BufferedStream × Pc)
select_case how e s =
    if s.events_closed
    then some (s, panicked)
    else if ltb (length s.buffer) s.capacity
    then some (record s { buffer = s.buffer ++ (e ∷ []) }, leaving none)
    else if is_waiting how || s.cancelled
    then none
    else some (s, overflowing)

-- `wg.Done()`.
wg_done : BufferedStream → Pc → BufferedStream × Pc
wg_done s next = elim (s.wg) [ zero ↦ (s, panicked) | suc n ↦ (record s { wg = n }, next) ]

begin_close : EventError → Option EventError → BufferedStream → BufferedStream × Pc
begin_close reason answer s =
    if s.closed
    then (s, awaiting answer)
    else (record s { closed = true; error = some reason; cancelled = true }, draining answer)

-- One step of a goroutine; `none` where it is blocked or has nothing to do.
unfoldable pub advance : Action → BufferedStream → Pc → Option (BufferedStream × Pc)
unfolding begin_send select_case wg_done begin_close
advance (sends how e) s idle = some (begin_send how e s (admit s.ref e))
advance (closes reason) s idle = some (s, closing reason none)
advance sees_cancel s (selecting how e) =
    if s.cancelled then some (s, leaving (some EventError.stream_closed)) else none
advance goes_on s (selecting how e) = select_case how e s
advance goes_on s (leaving answer) = some (wg_done s (returned answer))
advance goes_on s overflowing =
    some (wg_done s (closing EventError.buffer_overflow (some EventError.buffer_overflow)))
advance goes_on s (closing reason answer) = some (begin_close reason answer s)
advance goes_on s (awaiting answer) = if s.done_closed then some (s, returned answer) else none
advance goes_on s (draining answer) = elim (s.wg) [ zero ↦ some (s, drained answer) | suc n ↦ none ]
advance goes_on s (drained answer) =
    if s.events_closed
    then some (s, panicked)
    else some (record s { events_closed = true }, finishing answer)
advance goes_on s (finishing answer) =
    if s.done_closed
    then some (s, panicked)
    else some (record s { done_closed = true }, returned answer)
advance goes_on s (returned answer) = some (s, idle)
advance _ s _ = none
