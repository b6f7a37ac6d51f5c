-- ===== src/Client/Retries.antt =====
-- Which attempt answers a call.
use typeway.Base.{
  ℕ, zero, suc, ◌+◌, ◌%◌, ◌^◌, ◌≤◌, ◌≡◌, refl, ◌⊎◌, inl, inr, true, false, Bool-cases, arith,
}
use typeway.Client.{
  ClientError, retry_exhausted, RetryPolicy, is_retryable, Result, ok, err, retry_loop,
  attempts_loop,
}

module _ {A : Type 0} (policy : RetryPolicy) (attempt : ℕ → Result A) where
  -- The attempt is answered with an error that the policy retries.
  abbrev pub WasRetried : Result A → Type 0
  WasRetried (ok a) = ⊥
  WasRetried (err e) = is_retryable e policy ≡ true

  abbrev pub IsFinal : Result A → Type 0
  IsFinal (ok a) = Unit {0}
  IsFinal (err e) = is_retryable e policy ≡ false

  -- The attempts before the `i`th were retried.
  abbrev pub Before : ℕ → Type 0
  Before zero = Unit {0}
  Before (suc i) = Before i × WasRetried (attempt i)

  -- The `i`th attempt is the first final one, and answers the call.
  abbrev pub AnsweredBy : Result A × ℕ → ℕ → Type 0
  AnsweredBy r i =
      (i ≤ policy.max_retries) × Before i × IsFinal (attempt i) × (r ≡ (attempt i, suc i))

  -- All attempts, up to the `i`th, were retried, and the call reports its error and their number.
  abbrev pub ExhaustedAt : Result A × ℕ → ℕ → Type 0
  ExhaustedAt r i =
      (e : ClientError) × (i ≡ policy.max_retries)
      × Before (suc i)
      × (attempt i ≡ err e)
      × (r ≡ (err (retry_exhausted e ((policy.max_retries + 1) % 2 ^ 32)), suc i))

  abbrev pub IsAnswer : Result A × ℕ → Type 0
  IsAnswer r = ((i : ℕ) × AnsweredBy r i) ⊎ ((i : ℕ) × ExhaustedAt r i)

  Result-cases : (r : Result A) → ((a : A) × (r ≡ ok a)) ⊎ ((e : ClientError) × (r ≡ err e))
  Result-cases (ok a) = inl (a, refl)
  Result-cases (err e) = inr (e, refl)

  retry_loop-IsAnswer :
      (rounds j : ℕ) (last : ClientError)
      → rounds + j ≡ policy.max_retries
      → Before (suc j)
      → attempt j ≡ err last
      → IsAnswer (retry_loop policy attempt rounds (suc j) last)
  unfolding retry_loop
  retry_loop-IsAnswer zero j last m before e = inr (j, (last, omega arith, before, e, refl))
  retry_loop-IsAnswer (suc rounds) j last m before e = elim (Result-cases (attempt (suc j))) [
    | inl (a, q) ↦ inl (suc j, (omega arith, before, rw q tt, rw (q, retry_loop) refl))
    | inr (e', q) ↦ elim (Bool-cases (is_retryable e' policy)) [
      | inl t ↦
          rw (q, retry_loop, t)
            (retry_loop-IsAnswer rounds (suc j) e' (omega arith) (before, rw q t) q)
      | inr f ↦ inl (suc j, (omega arith, before, rw q f, rw (q, retry_loop, f) refl))
    ]
  ]

  -- A call makes at most one attempt more than the policy's retries: it is answered by the first attempt
  -- that succeeds or fails with an error that is not retried, and where there is none by the error of
  -- the last attempt, with the number of attempts as a u32.
  pub attempts_loop-IsAnswer : IsAnswer (attempts_loop policy attempt)
  unfolding attempts_loop
  attempts_loop-IsAnswer = elim (Result-cases (attempt 0)) [
    | inl (a, q) ↦ inl (0, (omega arith, tt, rw q tt, rw (q, attempts_loop) refl))
    | inr (e, q) ↦ elim (Bool-cases (is_retryable e policy)) [
      | inl t ↦
          rw (q, attempts_loop, t)
            (retry_loop-IsAnswer policy.max_retries 0 e (omega arith) (tt, rw q t) q)
      | inr f ↦ inl (0, (omega arith, tt, rw q f, rw (q, attempts_loop, f) refl))
    ]
  ]
