-- ===== src/Breaker/Restart.antt =====
-- crates/risk/src/circuit_breaker.rs: a restart that cannot use its snapshot fails closed
-- (`restore_circuit_breaker_snapshot`, `fail_closed_circuit_breaker_restore_after_epoch`).
use sinan.Prelude.{
  ℕ, ◌+◌, ◌≤◌, ◌<◌, ℤ, String, true, false, Option, none, some, ◌≡◌, refl, ◌⊎◌, inl, inr, arith,
  is_negative, u64_max, ok, err, Result-cases, Bool-cases, Option-cases, str_eq, checked_suc, ltb,
}
use text.Mathlib.TextEquality.{eq_iff}
use sinan.Breaker.Types.{opened, CircuitBreakerError, CircuitBreakerRestoreFailure}
use sinan.Breaker.State.{CircuitBreakerState, default_state}
use sinan.Breaker.Outcome.{CircuitBreakerOutcome, unchanged}
use sinan.Breaker.Machine.{
  safety_fallback, safety_incident, epoch_overflow, fallback_by_status, incident_state,
  open_incident, as_fallback, is_overflow,
}
use sinan.Breaker.Snapshot.{validate_restored_state}
use sinan.Breaker.Restore.{
  CircuitBreakerSnapshotV1, CircuitBreakerRecoveryEpochExhausted, state_of, at_epoch, outcome_of,
  circuit_breaker_snapshot_schema_version_v1, fail_closed_circuit_breaker_restore_after_epoch,
  fail_closed_circuit_breaker_restore, restore_checked, restore_parsed,
  restore_circuit_breaker_snapshot_v1, restore_circuit_breaker_snapshot, restore_text,
}

fallback-room :
    (s : CircuitBreakerState) (now : ℤ) (e : CircuitBreakerError)
    → ltb s.recovery_epoch u64_max ≡ true
    → ((as_fallback e (safety_incident s now e false)).state.status ≡ opened)
      × ((as_fallback e (safety_incident s now e false)).state.recovery_epoch
          ≡ s.recovery_epoch + 1)
      × ((as_fallback e (safety_incident s now e false)).error ≡ some e)
unfolding as_fallback is_overflow open_incident checked_suc incident_state
fallback-room s now e room = rw (room, open_incident) (refl, refl, refl)

-- The fallback of a restore after a known epoch is open either way. It is at the next epoch with the
-- failure as its error, or, where the epoch is the largest `u64`, it reports the exhaustion at that
-- epoch.
pub restore_after_epoch_lem :
    (failure : CircuitBreakerRestoreFailure) (now : ℤ) (last : ℕ)
    → ((last < u64_max)
        × ((o : CircuitBreakerOutcome) × (fail_closed_circuit_breaker_restore_after_epoch failure
                now last
              ≡ ok o)
            × (o.state.status ≡ opened)
            × (o.state.recovery_epoch ≡ last + 1)
            × (o.error ≡ some (CircuitBreakerError.durable_restore_failed failure))))
      ⊎ ((u64_max ≤ last)
          × ((x : CircuitBreakerRecoveryEpochExhausted)
              × (fail_closed_circuit_breaker_restore_after_epoch failure now last ≡ err x)
              × (x.outcome.state.status ≡ opened)
              × (x.outcome.state.recovery_epoch ≡ last)
              × (x.restore_failure ≡ failure)))
unfolding fail_closed_circuit_breaker_restore_after_epoch checked_suc at_epoch default_state
    safety_fallback fallback_by_status epoch_overflow incident_state
restore_after_epoch_lem failure now last = elim (Bool-cases (ltb last u64_max)) [
  | inl e ↦
      let failed = CircuitBreakerError.durable_restore_failed failure in
      let (is_open, next, reported) = fallback-room (at_epoch last) now failed e in
      inl (
        ground arith,
        (
          safety_fallback (at_epoch last) now failed,
          rw (e, fail_closed_circuit_breaker_restore_after_epoch),
          is_open,
          next,
          reported,
        ),
      )
  | inr e ↦ inr (
    ground arith,
    (
      record {
        last_recovery_epoch = last;
        restore_failure = failure;
        outcome = epoch_overflow (at_epoch last) now;
      },
      rw (e, fail_closed_circuit_breaker_restore_after_epoch),
      refl,
      refl,
      refl,
    ),
  )
]

-- The fallback of a restore without an epoch is open, at epoch 1, and its error is the failure.
pub fail_closed_lem :
    (failure : CircuitBreakerRestoreFailure) (now : ℤ)
    → ((fail_closed_circuit_breaker_restore failure now).state.status ≡ opened)
      × ((fail_closed_circuit_breaker_restore failure now).state.recovery_epoch ≡ 1)
      × ((fail_closed_circuit_breaker_restore failure now).error
          ≡ some (CircuitBreakerError.durable_restore_failed failure))
unfolding fail_closed_circuit_breaker_restore outcome_of
    fail_closed_circuit_breaker_restore_after_epoch checked_suc at_epoch default_state
    safety_fallback fallback_by_status open_incident as_fallback is_overflow incident_state
fail_closed_lem failure now = (refl, refl, refl)

-- Why a snapshot is not taken over: each failure with its cause, in the order of the tests.
pub data Refused (parse : String → Option CircuitBreakerSnapshotV1) (snapshot : Option String)
    (now : ℤ) : CircuitBreakerRestoreFailure → Type 0 where
  negative :
      is_negative now ≡ true
      → Refused parse snapshot now (CircuitBreakerRestoreFailure.invalid_server_time now)
  missing :
      is_negative now ≡ false
      → snapshot ≡ none
      → Refused parse snapshot now CircuitBreakerRestoreFailure.missing_snapshot
  unreadable :
      (text : String)
      → is_negative now ≡ false
      → snapshot ≡ some text
      → parse text ≡ none
      → Refused parse snapshot now CircuitBreakerRestoreFailure.corrupt_payload
  unsupported :
      (text : String) (p : CircuitBreakerSnapshotV1)
      → is_negative now ≡ false
      → snapshot ≡ some text
      → parse text ≡ some p
      → ¬ (p.schema_version ≡ circuit_breaker_snapshot_schema_version_v1)
      → Refused parse snapshot now
          (CircuitBreakerRestoreFailure.unsupported_schema_version p.schema_version)
  invalid :
      (text : String) (p : CircuitBreakerSnapshotV1) (failure : CircuitBreakerRestoreFailure)
      → is_negative now ≡ false
      → snapshot ≡ some text
      → parse text ≡ some p
      → p.schema_version ≡ circuit_breaker_snapshot_schema_version_v1
      → validate_restored_state (state_of p) now ≡ err failure
      → Refused parse snapshot now failure

-- What a restore that fails returns, and why it fails.
pub FailedClosed :
    (String → Option CircuitBreakerSnapshotV1) → Option String → ℤ → CircuitBreakerOutcome → Type 0
FailedClosed parse snapshot now o =
    (failure : CircuitBreakerRestoreFailure) × Refused parse snapshot now failure
    × (o.state.status ≡ opened)
    × (o.state.recovery_epoch ≡ 1)
    × (o.error ≡ some (CircuitBreakerError.durable_restore_failed failure))

-- What a restore that succeeds has read, and what it returns.
pub Restored :
    (String → Option CircuitBreakerSnapshotV1) → Option String → ℤ → CircuitBreakerOutcome → Type 0
Restored parse snapshot now o =
    (text : String) × (p : CircuitBreakerSnapshotV1) × (is_negative now ≡ false)
    × (snapshot ≡ some text)
    × (parse text ≡ some p)
    × (p.schema_version ≡ circuit_breaker_snapshot_schema_version_v1)
    × (validate_restored_state (state_of p) now ≡ ok tt)
    × (o ≡ unchanged (state_of p))

module _ (parse : String → Option CircuitBreakerSnapshotV1) (snapshot : Option String)
    (now : ℤ) where
  failed_closed :
      {failure : CircuitBreakerRestoreFailure}
      → Refused parse snapshot now failure
      → FailedClosed parse snapshot now (fail_closed_circuit_breaker_restore failure now)
  unfolding FailedClosed
  failed_closed {failure} why =
      let (is_open, first, reported) = fail_closed_lem failure now in
      (failure, why, is_open, first, reported)

  module _ (text : String) (p : CircuitBreakerSnapshotV1) (nonneg : is_negative now ≡ false)
      (given : snapshot ≡ some text) (reads : parse text ≡ some p) where
    restore_checked_lem :
        p.schema_version ≡ circuit_breaker_snapshot_schema_version_v1
        → let o = restore_checked (state_of p) (validate_restored_state (state_of p) now) now in
          Restored parse snapshot now o ⊎ FailedClosed parse snapshot now o
    unfolding Restored restore_checked
    restore_checked_lem h = elim (Result-cases (validate_restored_state (state_of p) now)) [
      | inl (u, e) ↦ inl (text, p, nonneg, given, reads, h, e, rw (e, restore_checked))
      | inr (failure, e) ↦
          inr (
            rw (e, restore_checked) (failed_closed (invalid text p failure nonneg given reads h e)))
    ]

    restore_v1_lem :
        let o = restore_circuit_breaker_snapshot_v1 p now in
        Restored parse snapshot now o ⊎ FailedClosed parse snapshot now o
    unfolding restore_circuit_breaker_snapshot_v1
    restore_v1_lem =
        elim (Bool-cases (str_eq p.schema_version circuit_breaker_snapshot_schema_version_v1)) [
          | inl q ↦ rw (nonneg, q) (restore_checked_lem ((eq_iff _ _).0 q))
          | inr q ↦ inr (
              rw (nonneg, q)
                (failed_closed
                  (unsupported text p nonneg given reads λ e. cc ((eq_iff _ _).1 e, q))))
        ]

-- `restore_circuit_breaker_snapshot`, whatever text is stored and whatever it parses to: the breaker
-- takes over the state of the snapshot if the server time is not negative, the text is there and
-- parses to a snapshot, its schema version is the known one and its state passes the validation.
-- Otherwise the outcome is open, with a durable-restore failure as its error, and the failure is
-- that of the first of these conditions that does not hold; its epoch is then 1, as this function is
-- not told the epoch that is stored beside the text.
pub restore_circuit_breaker_snapshot_lem :
    (parse : String → Option CircuitBreakerSnapshotV1) (snapshot : Option String) (now : ℤ)
    → Restored parse snapshot now (restore_circuit_breaker_snapshot parse snapshot now)
      ⊎ FailedClosed parse snapshot now (restore_circuit_breaker_snapshot parse snapshot now)
unfolding restore_circuit_breaker_snapshot restore_text restore_parsed
restore_circuit_breaker_snapshot_lem parse none now = elim (Bool-cases (is_negative now)) [
  | inl e ↦ inr (rw e (failed_closed parse none now (negative e)))
  | inr e ↦ inr (rw e (failed_closed parse none now (missing e refl)))
]
restore_circuit_breaker_snapshot_lem parse (some text) now = elim (Bool-cases (is_negative now)) [
  | inl e ↦ inr (rw e (failed_closed parse (some text) now (negative e)))
  | inr e ↦ elim (Option-cases (parse text)) [
    | inl q ↦
        inr (
          rw (e, q, restore_parsed)
            (failed_closed parse (some text) now (unreadable text e refl q)))
    | inr (p, q) ↦ rw (e, q, restore_parsed) (restore_v1_lem parse (some text) now text p e refl q)
  ]
]
