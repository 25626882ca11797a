-- ===== src/Failure/Policy.antt =====
-- What `_defer_failure` of task_execution.py promises of a failed attempt: when it is tried again,
-- what counts as a failure, and when the work is parked.
use foxhound.Prelude.{
  ℕ, zero, suc, ◌+◌, ◌-◌, ◌*◌, ◌^◌, ◌≤◌, ◌<◌, ◌≡◌, ◌≢◌, ◌↔◌, refl, sym, subst, ap, leb, Bool-cases,
  true, false, Option, none, some, ◌⊎◌, inl, inr, arith,
}
use foxhound.Schema.{FailureReason, context_exhausted, process_exit, queued}
use foxhound.Schema.WorkflowStatus.{parked}
use foxhound.Tables.{EventKind}
use foxhound.Failure.{
  deferral, retry_delay, timeout_delay, is_timeout, is_context_exhausted, park_interval,
}

pow_positive : (n : ℕ) → 1 ≤ 2 ^ n
pow_positive zero = omega arith
pow_positive (suc n) = let h = pow_positive n in omega arith

-- A retry waits a minute at least and an hour at most.
pub retry_delay_bounds : (n : ℕ) → (60 ≤ retry_delay n) × (retry_delay n ≤ 3600)
unfolding retry_delay
retry_delay_bounds n = let h = pow_positive (n - 1) in (omega arith, omega arith)

timeout_delay_bounds : (n : ℕ) → (60 ≤ timeout_delay n) × (timeout_delay n ≤ 3600)
unfolding timeout_delay
timeout_delay_bounds n = ground arith

next_attempt_cases :
    (m t h : ℕ) (reason : FailureReason) (exit_code : Option ℕ) (n now : ℕ)
    (kind : Option EventKind)
    → let d = deferral m t h reason exit_code n now kind in
      (d.next_attempt ≡ some (now + timeout_delay t))
      ⊎ (d.next_attempt ≡ some (now + retry_delay (n + 1)))
      ⊎ (d.next_attempt ≡ some (now + park_interval))
      ⊎ ((is_context_exhausted reason ≡ true) × (is_timeout reason exit_code ≡ false))
unfolding deferral
next_attempt_cases m t h reason exit_code n now kind = ground arith

exhausted_lem :
    (reason : FailureReason) → is_context_exhausted reason ≡ true → reason ≡ context_exhausted
exhausted_lem FailureReason.context_exhausted h = refl
exhausted_lem _ h = ground (arith, h)

-- `timeout(1)` exits with 124.
exhausted_exit :
    (exit_code : Option ℕ)
    → (is_timeout context_exhausted exit_code ≡ false) ↔ (exit_code ≢ some 124)
exhausted_exit none = (λ h. λ e. cc, λ h. refl)
exhausted_exit (some n) = (
  λ h. λ e. (let k : n ≡ 124 = ground (arith, e) in ground (arith, h, k)),
  λ h. ground (arith, h),
)

plain_exit :
    (exit_code : Option ℕ) → exit_code ≢ some 124 → is_timeout process_exit exit_code ≡ false
plain_exit none h = refl
plain_exit (some n) h = ground (arith, h)

exhausted_parked :
    (m t h : ℕ) (exit_code : Option ℕ) (n now : ℕ) (kind : Option EventKind)
    → is_timeout context_exhausted exit_code ≡ false
    → let d = deferral m t h context_exhausted exit_code n now kind in
      (d.status ≡ parked) × (d.next_attempt ≡ none) × (d.parked_since ≡ some now)
unfolding deferral
exhausted_parked m t h exit_code n now kind z = rw z (refl, refl, refl)

-- A failed attempt that was not a timeout is parked with no next attempt where its context was
-- exhausted, and waits for the reader; any other is tried again between one minute and six hours later.
pub deferral-window :
    (m t h : ℕ) (reason : FailureReason) (exit_code : Option ℕ) (n now : ℕ)
    (kind : Option EventKind)
    → let d = deferral m t h reason exit_code n now kind in
      let exhausted = (reason ≡ context_exhausted) × (exit_code ≢ some 124) in
      (exhausted → (d.status ≡ parked) × (d.next_attempt ≡ none) × (d.parked_since ≡ some now))
      × ((exhausted → ⊥)
          → (at : ℕ) × (d.next_attempt ≡ some at) × (now + 60 ≤ at) × (at ≤ now + 21600))
deferral-window m t h reason exit_code n now kind =
    let r = retry_delay_bounds (n + 1) in
    let q = timeout_delay_bounds t in
    (
      λ (e, o).
          subst
            (λ x.
              let d = deferral m t h x exit_code n now kind in
              (d.status ≡ parked) × (d.next_attempt ≡ none) × (d.parked_since ≡ some now))
            (sym e) (exhausted_parked m t h exit_code n now kind ((exhausted_exit exit_code).1 o)),
      λ other. elim (next_attempt_cases m t h reason exit_code n now kind) [
        | inl e ↦ (now + timeout_delay t, e, omega arith, omega arith)
        | inr (inl e) ↦ (now + retry_delay (n + 1), e, omega arith, omega arith)
        | inr (inr (inl e)) ↦ (now + park_interval, e, omega arith, omega arith)
        | inr (inr (inr (e, z))) ↦
            let x = exhausted_lem reason e in
            absurd (
              other (
                x,
                (exhausted_exit exit_code).0
                    (subst (λ (y : FailureReason). is_timeout y exit_code ≡ false) x z),
              ))
      ],
    )

-- Below an hour the delay is a minute doubled for each failure before; from the seventh on, an hour.
retry_delay-early : (n : ℕ) → n < 6 → retry_delay (n + 1) ≡ 60 * 2 ^ n
unfolding retry_delay
retry_delay-early zero h = refl
retry_delay-early (suc zero) h = refl
retry_delay-early (suc (suc zero)) h = refl
retry_delay-early (suc (suc (suc zero))) h = refl
retry_delay-early (suc (suc (suc (suc zero)))) h = refl
retry_delay-early (suc (suc (suc (suc (suc zero))))) h = refl
retry_delay-early (suc (suc (suc (suc (suc (suc n)))))) h = absurd (omega (arith, h))

pow_late : (n : ℕ) → 6 ≤ n → 64 ≤ 2 ^ n
pow_late zero h = absurd (omega (arith, h))
pow_late (suc n) h = elim (Bool-cases (leb 6 n)) [
  | inl e ↦ (let k = pow_late n (ground (arith, e)) in omega arith)
  | inr e ↦ (let k : n ≡ 5 = ground (arith, e, h) in rw k (omega arith))
]

retry_delay-late : (n : ℕ) → 6 ≤ n → retry_delay (n + 1) ≡ 3600
unfolding retry_delay
retry_delay-late n h =
    let p = pow_late n h in let k : n + 1 - 1 ≡ n = omega arith in rw k (omega arith)

-- Failures of the process, but with the exit code of a timeout, back off: below the limit of
-- attempts the next is a minute later after the first, and twice as late after each further one, up
-- to an hour; at the limit the work is parked, and tried again in six hours.
pub deferral-backoff :
    (m t h n now : ℕ) (exit_code : Option ℕ) (kind : Option EventKind)
    → exit_code ≢ some 124
    → let d = deferral m t h process_exit exit_code n now kind in
      (n + 1 < m
        → (d.status ≡ queued)
          × (d.failures ≡ n + 1)
          × (n < 6 → d.next_attempt ≡ some (now + 60 * 2 ^ n))
          × (6 ≤ n → d.next_attempt ≡ some (now + 3600)))
      × (m ≤ n + 1
          → (d.status ≡ parked) × (d.failures ≡ n + 1) × (d.next_attempt ≡ some (now + 21600)))
unfolding deferral
deferral-backoff m t h n now exit_code kind other =
    let z = plain_exit exit_code other in
    rw z (
      λ l.
          let below : leb m (n + 1) ≡ false = ground (arith, l) in
          rw below (
            refl,
            refl,
            λ k. ap (λ d. some (now + d)) (retry_delay-early n k),
            λ k. ap (λ d. some (now + d)) (retry_delay-late n k),
          ),
      λ l. (let spent : leb m (n + 1) ≡ true = ground (arith, l) in rw spent (refl, refl, refl)),
    )

-- A failed attempt that was not a timeout counts, and stays in the queue only below the limit; a
-- timeout does not count, and is queued again whatever the count is.
pub deferral-counts :
    (m t h : ℕ) (reason : FailureReason) (exit_code : Option ℕ) (n now : ℕ)
    (kind : Option EventKind)
    → let d = deferral m t h reason exit_code n now kind in
      ((is_timeout reason exit_code ≡ true) × (d.failures ≡ n) × (d.status ≡ queued))
      ⊎ ((is_timeout reason exit_code ≡ false)
          × (d.failures ≡ n + 1)
          × ((d.status ≡ parked) ⊎ ((d.status ≡ queued) × (n + 1 < m))))
unfolding deferral
deferral-counts m t h reason exit_code n now kind = ground arith
