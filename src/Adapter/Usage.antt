-- ===== src/Adapter/Usage.antt =====
-- internal/adapter/types.go: the reference of a turn, the usage of an execution, and the
-- capabilities of an adapter.
use agent_council.Common.{ℕ, String, Bool, ◌&&◌, ◌||◌, ◌≡◌, refl, is_blank, Result, ◌>>◌, fail_if}
use agent_council.Common.Int.{ℤ, is_negative, is_nan, is_inf, is_below_zero}

pub record TurnRef : Type 0 where
  pub session_id : String
  pub turn_key : String

-- What `Send`, `Event.Validate` and the validations below report.
pub data EventError : Type 0 where
  empty_session_id empty_turn_key payload_too_large : EventError
  negative_input negative_output invalid_cost : EventError
  inactive_status not_running not_terminal has_approval no_approval unknown_type : EventError
  wrong_ref stream_closed buffer_overflow : EventError

-- `TurnRef.Validate`.
unfoldable pub validate_turn_ref : TurnRef → Result EventError (Unit {0})
validate_turn_ref r = do
  fail_if (is_blank r.session_id) EventError.empty_session_id
  fail_if (is_blank r.turn_key) EventError.empty_turn_key

pub record UsageMetric (V : Type 0) : Type 0 where
  pub value : V
  pub available : Bool
  pub estimated : Bool

-- The cost is the bit pattern of a float64.
pub record ExecutionUsage : Type 0 where
  pub input_tokens : UsageMetric ℤ
  pub output_tokens : UsageMetric ℤ
  pub total_cost_usd : UsageMetric ℕ

-- `ExecutionUsage.Validate`.
unfoldable pub validate_usage : ExecutionUsage → Result EventError (Unit {0})
validate_usage u =
    let cost = u.total_cost_usd.value in
    do
      fail_if (u.input_tokens.available && is_negative u.input_tokens.value)
          EventError.negative_input
      fail_if (u.output_tokens.available && is_negative u.output_tokens.value)
          EventError.negative_output
      fail_if (u.total_cost_usd.available && (is_below_zero cost || is_nan cost || is_inf cost))
          EventError.invalid_cost

-- A capability's status is a text; `other` stands for every text that is none of the constants.
pub data CapabilityStatus : Type 0 where
  supported unsupported unknown : CapabilityStatus
  other : String → CapabilityStatus

pub record AdapterCapabilities : Type 0 where
  pub session_resumption : CapabilityStatus
  pub mid_turn_cancellation : CapabilityStatus
  pub tool_approval_routing : CapabilityStatus
  pub streaming_observation : CapabilityStatus
  pub structured_output : CapabilityStatus

abbrev norm : CapabilityStatus → CapabilityStatus
norm CapabilityStatus.supported = CapabilityStatus.supported
norm CapabilityStatus.unsupported = CapabilityStatus.unsupported
norm _ = CapabilityStatus.unknown

-- `AdapterCapabilities.Normalize`.
pub normalize : AdapterCapabilities → AdapterCapabilities
normalize c = record {
  session_resumption = norm c.session_resumption;
  mid_turn_cancellation = norm c.mid_turn_cancellation;
  tool_approval_routing = norm c.tool_approval_routing;
  streaming_observation = norm c.streaming_observation;
  structured_output = norm c.structured_output;
}

norm_idem : (s : CapabilityStatus) → norm (norm s) ≡ norm s
norm_idem CapabilityStatus.supported = refl
norm_idem CapabilityStatus.unsupported = refl
norm_idem CapabilityStatus.unknown = refl
norm_idem (CapabilityStatus.other t) = refl

pub normalize_idem : (c : AdapterCapabilities) → normalize (normalize c) ≡ normalize c
unfolding normalize
normalize_idem c = cc (
  norm_idem c.session_resumption,
  norm_idem c.mid_turn_cancellation,
  norm_idem c.tool_approval_routing,
  norm_idem c.streaming_observation,
  norm_idem c.structured_output,
)
