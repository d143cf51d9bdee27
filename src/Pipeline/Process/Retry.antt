-- ===== src/Pipeline/Process/Retry.antt =====
-- What `process` decides after an exception: another attempt, with its time, or failure.
use native.Mathlib.Nat.{pow-suc, mul_assoc}
use document_feeder.Prelude.{
  ℕ, zero, suc, max, ◌^◌, refl, some, arith, Bool-cases, inl, inr, ◌+◌, ◌*◌, String, ◌≡◌, Bool,
  true, false, not, ◌&&◌, ltb, none, ◌∷◌, [], ◌++◌, if◌then◌else◌,
}
use document_feeder.Prelude.Exec.{◌>>=◌}
use document_feeder.Models.Job.{received, failed}
use document_feeder.Connectors.{Failure, permanent, temporary, os_error, other, message}
use document_feeder.Store.Database.{redact}
use document_feeder.Pipeline.World.{Environment, Run}
use document_feeder.Pipeline.Activity.Laws.{event-Keeps}
use document_feeder.Pipeline.Process.{
  Delay, is_permanent, backoff, at_least, half_seconds, retry_after_of, schedule_retry, give_up,
  retry_or_fail, recover,
}

module _ (env : Environment) where
  -- the seconds that the target asked to wait
  abbrev pub asked : Failure → ℕ
  asked (temporary m (some seconds)) = seconds
  asked _ = 0

  -- The time that a retry is put off, in microseconds: half the base, doubled for each attempt so
  -- far, or what the target asked for if that is more.
  unfoldable pub delay_after : Failure → ℕ → ℕ
  delay_after e attempt =
      max (env.settings.worker_retry_base_seconds * 2 ^ attempt * 500000) (asked e * 1000000)

  -- whether there is another attempt
  unfoldable pub may_retry : Failure → ℕ → Bool
  may_retry (permanent m) attempt = false
  may_retry _ attempt = ltb attempt env.settings.worker_max_attempts

  -- the delay that the code computes, in seconds and halves of them
  abbrev computed : Failure → ℕ → ℕ
  computed e attempt =
      half_seconds
        (at_least (backoff env.settings.worker_retry_base_seconds attempt) (retry_after_of e))

  half_seconds-backoff :
      (base attempt : ℕ) → half_seconds (backoff base attempt) ≡ base * 2 ^ attempt
  unfolding backoff
  half_seconds-backoff base zero = ground arith
  half_seconds-backoff base (suc n) = rw (pow-suc 2 n, ← mul_assoc base (2 ^ n) 2) (omega arith)

  half_seconds-at_least :
      (d : Delay) (n : ℕ) → half_seconds (at_least d (some n)) ≡ max (half_seconds d) (2 * n)
  unfolding at_least
  half_seconds-at_least d n = elim (Bool-cases (ltb (half_seconds d) (2 * n))) [
    | inl e ↦ rw e (ground arith)
    | inr e ↦ rw e (ground arith)
  ]

  computed-delay_after :
      (e : Failure) (attempt : ℕ) → computed e attempt * 500000 ≡ delay_after e attempt
  unfolding at_least delay_after
  computed-delay_after (permanent m) attempt =
      omega (arith, half_seconds-backoff env.settings.worker_retry_base_seconds attempt)
  computed-delay_after (temporary m none) attempt =
      omega (arith, half_seconds-backoff env.settings.worker_retry_base_seconds attempt)
  computed-delay_after (temporary m (some n)) attempt =
      rw (half_seconds-at_least (backoff env.settings.worker_retry_base_seconds attempt) n)
        (omega (arith, half_seconds-backoff env.settings.worker_retry_base_seconds attempt))
  computed-delay_after (os_error m) attempt =
      omega (arith, half_seconds-backoff env.settings.worker_retry_base_seconds attempt)
  computed-delay_after (other m) attempt =
      omega (arith, half_seconds-backoff env.settings.worker_retry_base_seconds attempt)

  may_retry-is_permanent :
      (e : Failure) (attempt : ℕ)
      → may_retry e attempt ≡ (not (is_permanent e) && ltb attempt env.settings.worker_max_attempts)
  unfolding may_retry
  may_retry-is_permanent (permanent m) attempt = refl
  may_retry-is_permanent (temporary m n) attempt = refl
  may_retry-is_permanent (os_error m) attempt = refl
  may_retry-is_permanent (other m) attempt = refl

  decided :
      (e : Failure) (error : String) (b : Bool) (s : Run env.Files)
      → (retry_or_fail env e error b s).1.job ≡ (
          if b
          then record s.job {
            status = received;
            next_attempt_at = some (env.clock s.readings + delay_after e s.job.attempt_count);
          }
          else record s.job { status = failed; next_attempt_at = none })
  unfolding retry_or_fail schedule_retry give_up ◌>>=◌
  decided e error true s = rw (← computed-delay_after e s.job.attempt_count) (event-Keeps env _ _)
  decided e error false s = event-Keeps env _ _

  -- After an exception the job is put back with the time of its next attempt, if the error is not
  -- permanent and attempts are left, and has failed otherwise; the redacted error is its last one.
  -- The delay is half the base, doubled with each attempt so far, or what the target asked for if
  -- that is more; times are within the range of `datetime`.
  pub recover-job :
      (e : Failure) (s : Run env.Files)
      → (recover env e s).1.job ≡ (
          let error = redact s.db (message e) in
          let job = record s.job { errors = s.job.errors ++ error ∷ []; last_error = some error } in
          if may_retry e s.job.attempt_count
          then record job {
            status = received;
            next_attempt_at = some (env.clock s.readings + delay_after e s.job.attempt_count);
          }
          else record job { status = failed; next_attempt_at = none })
  unfolding recover ◌>>=◌
  recover-job e s = rw (may_retry-is_permanent e s.job.attempt_count) (decided e _ _ _)
