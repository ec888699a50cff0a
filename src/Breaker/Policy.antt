-- ===== src/Breaker/Policy.antt =====
-- crates/risk/src/circuit_breaker.rs: what is validated before a request is served.
use sinan.Prelude.{
  ℤ, pos, String, List, [], ◌∷◌, Bool, Option, none, some, ◌||◌, Result, ok, ◌>>=◌, ◌>>◌, reject_if,
  is_negative, eqb_ℤ, ltb_ℤ, is_none_or, is_blank, if◌then◌else◌,
}
use sinan.Breaker.Types.{
  CircuitBreakerPolicy, CircuitBreakerError, RecoveryPrerequisite, account_refresh,
  position_refresh, order_refresh, symbol_metadata_refresh, pending_command_reconciliation,
}
use sinan.Breaker.Input.{HalfOpenReadiness, ManualResetEvidence}

-- The loop over `required_positive`: a value is refused where it equals 0.
unfoldable pub require_positive : List (String × ℤ) → Result CircuitBreakerError (Unit {0})
require_positive [] = ok tt
require_positive ((field, value) ∷ rest) = do
  reject_if (eqb_ℤ value (pos 0))
      (CircuitBreakerError.invalid_policy field "must be greater than zero")
  require_positive rest

-- The array of the fields, and `CircuitBreakerPolicy::validate`.
abbrev pub required_positive : CircuitBreakerPolicy → List (String × ℤ)
required_positive p =
    ("max_daily_realized_loss_bps", pos p.max_daily_realized_loss_bps)
    ∷ ("max_equity_drawdown_bps", pos p.max_equity_drawdown_bps)
    ∷ ("max_consecutive_broker_rejections", pos p.max_consecutive_broker_rejections)
    ∷ ("max_consecutive_command_failures", pos p.max_consecutive_command_failures)
    ∷ ("half_open_observation_ms", p.half_open_observation_ms)
    ∷ []

unfoldable pub validate : CircuitBreakerPolicy → Result CircuitBreakerError (Unit {0})
validate p = do
  require_positive (required_positive p)
  reject_if (is_negative p.max_time_sync_unhealthy_ms)
      (CircuitBreakerError.invalid_policy "max_time_sync_unhealthy_ms" "must not be negative")

unfoldable pub validate_non_blank : String → String → Result CircuitBreakerError (Unit {0})
validate_non_blank field value =
    reject_if (is_blank value) (CircuitBreakerError.invalid_input field "must not be blank")

-- The loop of `validate_manual_reset_evidence`.
unfoldable pub require_text : List (String × String) → Result CircuitBreakerError (Unit {0})
require_text [] = ok tt
require_text ((field, value) ∷ rest) = do
  reject_if (is_blank value) (CircuitBreakerError.manual_reset_evidence_missing field)
  require_text rest

unfoldable pub validate_manual_reset_evidence :
    ManualResetEvidence → Result CircuitBreakerError (Unit {0})
validate_manual_reset_evidence e = require_text (
    ("audit_event_id", e.audit_event_id)
    ∷ ("operator_id", e.operator_id)
    ∷ ("reason", e.reason)
    ∷ ("evidence", e.evidence)
    ∷ [])

-- One round of the loop of `missing_half_open_prerequisites`: the prerequisite, if it is missing.
abbrev pub out_of_range : ℤ → ℤ → Bool
out_of_range now t = is_negative t || ltb_ℤ now t

abbrev pub check_range : String → Option ℤ → ℤ → Result CircuitBreakerError (Unit {0})
check_range field none now = ok tt
check_range field (some t) now =
    reject_if (out_of_range now t)
      (CircuitBreakerError.invalid_input field "must be between zero and server_now_ms")

unfoldable pub missing_of :
    List (String × Option ℤ × RecoveryPrerequisite)
    → ℤ
    → ℤ
    → Result CircuitBreakerError (List RecoveryPrerequisite)
missing_of [] triggered_at now = ok []
missing_of ((field, observed, prerequisite) ∷ rest) triggered_at now = do
  check_range field observed now
  missing ← missing_of rest triggered_at now
  ok (
      if is_none_or (λ value. ltb_ℤ value triggered_at) observed
      then prerequisite ∷ missing
      else missing)

unfoldable pub missing_half_open_prerequisites :
    HalfOpenReadiness → ℤ → ℤ → Result CircuitBreakerError (List RecoveryPrerequisite)
missing_half_open_prerequisites r triggered_at now =
    missing_of
      (("readiness.account_refreshed_at_ms", r.account_refreshed_at_ms, account_refresh)
        ∷ ("readiness.positions_refreshed_at_ms", r.positions_refreshed_at_ms, position_refresh)
        ∷ ("readiness.orders_refreshed_at_ms", r.orders_refreshed_at_ms, order_refresh)
        ∷ (
          "readiness.symbol_metadata_refreshed_at_ms", r.symbol_metadata_refreshed_at_ms,
          symbol_metadata_refresh,
        )
        ∷ (
          "readiness.pending_commands_reconciled_at_ms", r.pending_commands_reconciled_at_ms,
          pending_command_reconciliation,
        )
        ∷ [])
      triggered_at now
