-- ===== src/Breaker/Detect.antt =====
-- crates/risk/src/circuit_breaker.rs: which limits the input violates.
use sinan.Prelude.{
  ℤ, String, List, [], ◌∷◌, ◌++◌, Bool, true, false, ◌||◌, Option, none, some, Result, ok, ◌>>=◌,
  ◌>>◌, reject_if, ok_or, is_negative, ltb_ℤ, leb, ltb, checked_sub, keep_if, if◌then◌else◌, not,
}
use sinan.Breaker.Types.{CircuitBreakerPolicy, CircuitBreakerError}
use sinan.Breaker.Incident.{CircuitBreakerViolation}
use sinan.Breaker.Input.{CircuitBreakerInput, ManualTrigger}
use sinan.Breaker.State.{CircuitBreakerState}
use sinan.Breaker.Policy.{validate_non_blank}

-- `if violated { violations.push(v) }`.
abbrev pub when : Bool → CircuitBreakerViolation → List CircuitBreakerViolation
when b v = if b then v ∷ [] else []

unfoldable pub validate_trigger : Option ManualTrigger → Result CircuitBreakerError (Unit {0})
validate_trigger none = ok tt
validate_trigger (some trigger) = do
  validate_non_blank "manual_trigger.operator_id" trigger.operator_id
  validate_non_blank "manual_trigger.reason" trigger.reason

abbrev pub clock_error : String → CircuitBreakerError
clock_error requirement =
    CircuitBreakerError.invalid_input "time_sync_unhealthy_since_ms" requirement

-- The branch on `time_sync_unhealthy_since_ms`, which may refuse the input.
unfoldable pub clock_violations :
    CircuitBreakerPolicy → Option ℤ → ℤ → Result CircuitBreakerError (List CircuitBreakerViolation)
clock_violations policy none now = ok []
clock_violations policy (some since) now = do
  reject_if (is_negative since || ltb_ℤ now since)
      (clock_error "must be between zero and server_now_ms")
  unhealthy_for_ms ←
      ok_or (checked_sub now since) (clock_error "duration calculation must not overflow")
  ok (
      when (ltb_ℤ policy.max_time_sync_unhealthy_ms unhealthy_for_ms)
        (CircuitBreakerViolation.time_sync unhealthy_for_ms policy.max_time_sync_unhealthy_ms))

unfoldable pub trigger_violations : Option ManualTrigger → List CircuitBreakerViolation
trigger_violations none = []
trigger_violations (some trigger) =
    CircuitBreakerViolation.triggered_manually trigger.operator_id trigger.reason ∷ []

-- The pushes before the clock is read, and those after it.
unfoldable pub limit_violations :
    CircuitBreakerPolicy → CircuitBreakerInput → List CircuitBreakerViolation
limit_violations p i =
    when (leb p.max_daily_realized_loss_bps i.daily_realized_loss_bps) (
      CircuitBreakerViolation.daily_realized_loss i.daily_realized_loss_bps
        p.max_daily_realized_loss_bps)
    ++ (when (leb p.max_equity_drawdown_bps i.equity_drawdown_bps)
          (CircuitBreakerViolation.equity_drawdown i.equity_drawdown_bps p.max_equity_drawdown_bps)
        ++ (when (leb p.max_consecutive_broker_rejections i.consecutive_broker_rejections) (
              CircuitBreakerViolation.broker_rejections i.consecutive_broker_rejections
                p.max_consecutive_broker_rejections)
            ++ (when (leb p.max_consecutive_command_failures i.consecutive_command_failures) (
                  CircuitBreakerViolation.command_failures i.consecutive_command_failures
                    p.max_consecutive_command_failures)
                ++ (when (ltb 0 i.manual_reconciliation_required_count) (
                      CircuitBreakerViolation.manual_reconciliation
                        i.manual_reconciliation_required_count)
                    ++ when i.store_recovery_reconciliation_pending
                        CircuitBreakerViolation.store_recovery_pending))))

unfoldable pub stale_violations :
    CircuitBreakerPolicy → CircuitBreakerInput → List CircuitBreakerViolation
stale_violations p i =
    when (ltb p.max_consecutive_snapshot_stale i.consecutive_snapshot_stale_count) (
      CircuitBreakerViolation.stale_snapshot i.consecutive_snapshot_stale_count
        p.max_consecutive_snapshot_stale)
    ++ when (ltb p.max_consecutive_symbol_metadata_stale i.consecutive_symbol_metadata_stale_count)
        (CircuitBreakerViolation.stale_symbol_metadata i.consecutive_symbol_metadata_stale_count
          p.max_consecutive_symbol_metadata_stale)

unfoldable pub collect_violations :
    CircuitBreakerPolicy
    → CircuitBreakerInput
    → ℤ
    → Result CircuitBreakerError (List CircuitBreakerViolation)
collect_violations policy input now = do
  validate_trigger input.manual_trigger
  clock ← clock_violations policy input.time_sync_unhealthy_since_ms now
  ok (
      limit_violations policy input
      ++ (clock ++ (stale_violations policy input ++ trigger_violations input.manual_trigger)))

-- `matches!(violation, DailyRealizedLoss { .. })`, and so for the drawdown.
unfoldable pub is_daily_loss : CircuitBreakerViolation → Bool
is_daily_loss (CircuitBreakerViolation.daily_realized_loss _ _) = true
is_daily_loss _ = false

unfoldable pub is_drawdown : CircuitBreakerViolation → Bool
is_drawdown (CircuitBreakerViolation.equity_drawdown _ _) = true
is_drawdown _ = false

-- `violations.iter().find(test).cloned().unwrap_or(fallback)`.
unfoldable pub find_or :
    (CircuitBreakerViolation → Bool)
    → CircuitBreakerViolation
    → List CircuitBreakerViolation
    → CircuitBreakerViolation
find_or test fallback [] = fallback
find_or test fallback (v ∷ vs) = if test v then v else find_or test fallback vs

-- What is neither a daily loss nor a drawdown.
unfoldable pub is_blocking : CircuitBreakerViolation → Bool
is_blocking v = not (is_daily_loss v || is_drawdown v)

unfoldable pub filter_half_open_violations :
    CircuitBreakerState
    → List CircuitBreakerViolation
    → CircuitBreakerInput
    → Result CircuitBreakerError (List CircuitBreakerViolation)
filter_half_open_violations s all input = do
  daily ← ok_or s.half_open_daily_loss_baseline_bps CircuitBreakerError.half_open_baseline_missing
  drawdown ← ok_or s.half_open_drawdown_baseline_bps CircuitBreakerError.half_open_baseline_missing
  ok (
      when (ltb daily input.daily_realized_loss_bps) (
        find_or is_daily_loss
          (CircuitBreakerViolation.daily_realized_loss_worsened daily input.daily_realized_loss_bps)
          all)
      ++ (when (ltb drawdown input.equity_drawdown_bps) (
            find_or is_drawdown
              (CircuitBreakerViolation.equity_drawdown_worsened drawdown input.equity_drawdown_bps)
              all)
          ++ keep_if is_blocking all))

unfoldable pub half_open_violations :
    CircuitBreakerPolicy
    → CircuitBreakerState
    → CircuitBreakerInput
    → ℤ
    → Result CircuitBreakerError (List CircuitBreakerViolation)
half_open_violations policy s input now = do
  all ← collect_violations policy input now
  filter_half_open_violations s all input
