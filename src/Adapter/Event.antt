-- ===== src/Adapter/Event.antt =====
-- internal/adapter/stream.go: the envelope of an event and `Event.Validate`.
use Prim.Native.Char.{code}
use agent_council.Common.{
  ℕ, ◌+◌, ◌*◌, ◌≤◌, String, true, false, not, ◌≡◌, ◌↔◌, ltb, if◌then◌else◌, is_blank, text_eq,
  arith, eq_iff, Result, ok, err, ◌>>◌, fail_if, >>-eq-ok,
}
use agent_council.Common.Int.{is_negative, is_nan, is_inf, is_below_zero}
use agent_council.Council.Status.{TurnStatus, is_live, is_terminal, turn_running}
use agent_council.Adapter.Usage.{
  TurnRef, ExecutionUsage, EventError, validate_turn_ref, validate_usage,
}

-- An event's type is a text; `other` stands for every text that is none of the constants.
pub data EventType : Type 0 where
  progress tool_requested tool_approved tool_denied terminal : EventType
  other : String → EventType

pub record Event : Type 0 where
  pub ref : TurnRef
  pub type : EventType
  pub status : TurnStatus
  pub approval_id : String
  pub payload : String
  pub usage : ExecutionUsage
  pub timestamp : ℕ

abbrev pub max_event_payload_bytes : ℕ
max_event_payload_bytes = 64 * 1024

-- `len` of a text, which Go keeps in UTF-8.
unfoldable pub byte_length : String → ℕ
byte_length String.[] = 0
byte_length (String.◌∷◌ c s) =
    let n = code c in
    (if ltb n 0x80 then 1 else if ltb n 0x800 then 2 else if ltb n 0x10000 then 3 else 4)
    + byte_length s

-- The `switch` on the type.
validate_type : EventType → TurnStatus → String → Result EventError (Unit {0})
validate_type EventType.progress st approval = do
  fail_if (not (is_live st)) EventError.inactive_status
  fail_if (not (text_eq approval "")) EventError.has_approval
validate_type EventType.tool_requested st approval = do
  fail_if (not (turn_running st)) EventError.not_running
  fail_if (is_blank approval) EventError.no_approval
validate_type EventType.tool_approved st approval = do
  fail_if (not (turn_running st)) EventError.not_running
  fail_if (is_blank approval) EventError.no_approval
validate_type EventType.tool_denied st approval = do
  fail_if (not (turn_running st)) EventError.not_running
  fail_if (is_blank approval) EventError.no_approval
validate_type EventType.terminal st approval = do
  fail_if (not (is_terminal st)) EventError.not_terminal
  fail_if (not (text_eq approval "")) EventError.has_approval
validate_type (EventType.other t) st approval = err EventError.unknown_type

-- `Event.Validate`.
unfoldable pub validate_event : Event → Result EventError (Unit {0})
unfolding validate_type
validate_event e = do
  validate_turn_ref e.ref
  fail_if (ltb max_event_payload_bytes (byte_length e.payload)) EventError.payload_too_large
  validate_usage e.usage
  validate_type e.type e.status e.approval_id

-- Which status and approval an event of a type carries.
abbrev pub Carries : EventType → TurnStatus → String → Type 0
Carries EventType.progress st approval = (is_live st ≡ true) × (approval ≡ "")
Carries EventType.terminal st approval = (is_terminal st ≡ true) × (approval ≡ "")
Carries (EventType.other t) st approval = ⊥
Carries _ st approval = (turn_running st ≡ true) × (is_blank approval ≡ false)

-- A metric that is available has a sound value.
pub record SoundUsage (u : ExecutionUsage) : Type 0 where
  pub input : u.input_tokens.available ≡ true → is_negative u.input_tokens.value ≡ false
  pub output : u.output_tokens.available ≡ true → is_negative u.output_tokens.value ≡ false
  pub cost :
      u.total_cost_usd.available ≡ true
      → (is_below_zero u.total_cost_usd.value ≡ false)
        × (is_nan u.total_cost_usd.value ≡ false)
        × (is_inf u.total_cost_usd.value ≡ false)

pub record WellFormed (e : Event) : Type 0 where
  pub session_named : is_blank e.ref.session_id ≡ false
  pub turn_named : is_blank e.ref.turn_key ≡ false
  pub payload_fits : byte_length e.payload ≤ max_event_payload_bytes
  pub usage_sound : SoundUsage e.usage
  pub carries : Carries e.type e.status e.approval_id

validate_turn_ref_iff :
    (r : TurnRef)
    → (validate_turn_ref r ≡ ok tt)
      ↔ (is_blank r.session_id ≡ false) × (is_blank r.turn_key ≡ false)
unfolding validate_turn_ref
validate_turn_ref_iff r = (λ h. (ground arith, ground arith), λ h. ground arith)

validate_usage_iff : (u : ExecutionUsage) → (validate_usage u ≡ ok tt) ↔ SoundUsage u
unfolding validate_usage
validate_usage_iff u = (
  λ h. record { input = λ a. ground arith; output = λ a. ground arith; cost = λ a. ground arith },
  λ s. ground arith,
)

validate_type_iff :
    (t : EventType) (st : TurnStatus) (a : String) → (validate_type t st a ≡ ok tt) ↔ Carries t st a
unfolding validate_type
validate_type_iff EventType.progress st a =
    (λ h. ground (arith, eq_iff a ""), λ h. ground (arith, eq_iff a ""))
validate_type_iff EventType.tool_requested st a = (λ h. ground arith, λ h. ground arith)
validate_type_iff EventType.tool_approved st a = (λ h. ground arith, λ h. ground arith)
validate_type_iff EventType.tool_denied st a = (λ h. ground arith, λ h. ground arith)
validate_type_iff EventType.terminal st a =
    (λ h. ground (arith, eq_iff a ""), λ h. ground (arith, eq_iff a ""))
validate_type_iff (EventType.other t) st a = (λ h. cc, λ h. elim h [ ])

-- An event is valid exactly when it is well formed: its reference names a session and a turn, its
-- payload has at most 65536 bytes, each metric that is available is sound, and its type agrees
-- with its status and its approval id: progress comes from a live turn and a terminal event from an
-- ended one, both without an approval; the tool events come from a running turn, with one.
pub validate_event_iff : (e : Event) → (validate_event e ≡ ok tt) ↔ WellFormed e
unfolding validate_event
validate_event_iff e = (
  λ h.
      let named = >>-eq-ok (validate_turn_ref e.ref) _ h in
      let fits =
        >>-eq-ok (fail_if (ltb max_event_payload_bytes (byte_length e.payload)) _) _ named.1 in
      let sound = >>-eq-ok (validate_usage e.usage) _ fits.1 in
      record {
        session_named = ((validate_turn_ref_iff e.ref).0 named.0).0;
        turn_named = ((validate_turn_ref_iff e.ref).0 named.0).1;
        payload_fits = ground (arith, fits.0);
        usage_sound = (validate_usage_iff e.usage).0 sound.0;
        carries = (validate_type_iff e.type e.status e.approval_id).0 sound.1;
      },
  λ w.
      let named = (validate_turn_ref_iff e.ref).1 (w.session_named, w.turn_named) in
      let sound = (validate_usage_iff e.usage).1 w.usage_sound in
      let carried = (validate_type_iff e.type e.status e.approval_id).1 w.carries in
      ground (arith, w.payload_fits),
)
