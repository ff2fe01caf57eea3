-- ===== src/Adapter/Tests.antt =====
-- Runs of internal/adapter/stream.go on concrete events and schedules.
use agent_council.Common.{
  ◌≡◌, refl, ◌↔◌, true, false, All, none, some, List, [], ◌∷◌, is_blank, arith, ok, err,
}
use agent_council.Common.Int.{pos, negsuc}
use agent_council.Council.Status.{TurnStatus}
use agent_council.Adapter.Usage.{
  TurnRef, EventError, ExecutionUsage, validate_turn_ref, validate_usage,
}
use agent_council.Adapter.Event.{
  Event, EventType, WellFormed, byte_length, validate_event, validate_event_iff,
}
use agent_council.Adapter.Stream.{
  Sender, returned, sends, closes, goes_on, sees_cancel, new_buffered_stream, admit, advance,
}
use agent_council.Adapter.Stream.System.{System, Move, acts, run, start}
use agent_council.Adapter.Stream.Invariant.{broken, Holds, stream_keeps_Inv, never_panics}
use agent_council.Adapter.Stream.Order.{accepted, Grows, stream_delivers, first_close_wins}
use agent_council.Adapter.Stream.Shutdown.{Continues, close_completes}

abbrev turn : TurnRef
turn = record { session_id = "s-1"; turn_key = "t-1" }

abbrev no_usage : ExecutionUsage
no_usage = record {
  input_tokens = record { value = negsuc 0; available = false; estimated = false };
  output_tokens = record { value = pos 12; available = true; estimated = true };
  total_cost_usd = record { value = 0; available = false; estimated = false };
}

abbrev event : Event
event = record {
  ref = turn;
  type = EventType.progress;
  status = TurnStatus.running;
  approval_id = "";
  payload = "working";
  usage = no_usage;
  timestamp = 7;
}

event_valid : validate_event event ≡ ok tt
unfolding validate_event validate_turn_ref validate_usage is_blank byte_length
event_valid = refl

-- A terminal event of a running turn.
early_end :
    validate_event (record event { type = EventType.terminal }) ≡ err EventError.not_terminal
unfolding validate_event validate_turn_ref validate_usage is_blank byte_length
early_end = refl

validate_event_iff_example : (validate_event event ≡ ok tt) ↔ WellFormed event
validate_event_iff_example = validate_event_iff event

-- Goroutine 0 announces an event; goroutine 1 closes the stream before it is sent.
abbrev race : List Move
race =
    acts 0 (sends Sender.waits event)
    ∷ acts 1 (closes EventError.stream_closed)
    ∷ acts 1 goes_on
    ∷ acts 1 goes_on
    ∷ []

abbrev overtaken : System
overtaken = run 2 (start turn (pos 1)) race

-- The closer waits for the sender, who gives up, and then both return.
abbrev settled : System
settled =
    run 2 overtaken
      (acts 0 sees_cancel ∷ acts 0 goes_on ∷ acts 1 goes_on ∷ acts 1 goes_on ∷ acts 1 goes_on ∷ [])

race_result :
    (overtaken.stream.closed ≡ true)
    × (settled.pc 0 ≡ returned (some EventError.stream_closed))
    × (settled.pc 1 ≡ returned none)
    × (settled.stream.done_closed ≡ true)
unfolding run new_buffered_stream advance admit validate_event validate_turn_ref validate_usage
    is_blank byte_length
race_result = (refl, refl, refl, refl)

-- The second event finds the channel of one place full.
overflow_result :
    (run 1 (start turn (pos 1)) (
      acts 0 (sends Sender.overflows event)
      ∷ acts 0 goes_on
      ∷ acts 0 goes_on
      ∷ acts 0 goes_on
      ∷ acts 0 (sends Sender.overflows event)
      ∷ acts 0 goes_on
      ∷ acts 0 goes_on
      ∷ acts 0 goes_on
      ∷ [])).stream.error
    ≡ some EventError.buffer_overflow
unfolding run new_buffered_stream advance admit validate_event validate_turn_ref validate_usage
    is_blank byte_length
overflow_result = refl

stream_keeps_Inv_example : Holds 2 (run 2 (start turn (pos 1)) race)
stream_keeps_Inv_example = stream_keeps_Inv 2 turn (pos 1) race

never_panics_example : broken ((run 2 (start turn (pos 1)) race).pc 1) ≡ 0
never_panics_example = never_panics 2 turn (pos 1) race 1 (omega arith)

race_error-first :
    ((run 2 overtaken race).stream.closed ≡ true)
    × ((run 2 overtaken race).stream.error ≡ overtaken.stream.error)
race_error-first = first_close_wins 2 overtaken race race_result.0

stream_delivers_example :
    Grows turn (accepted overtaken) (accepted (run 2 overtaken race))
    × (overtaken.stream.events_closed ≡ true → accepted (run 2 overtaken race) ≡ accepted overtaken)
stream_delivers_example = stream_delivers 2 turn (pos 1) race race

close_completes_example :
    (ks : List Move) × All Continues ks × ((run 2 overtaken ks).stream.done_closed ≡ true)
close_completes_example = close_completes 2 turn (pos 1) race race_result.0
