-- ===== src/Client.antt =====
-- typeway-client: the retry policy (retry.rs), the errors (error.rs) and the loops of attempts
-- (client.rs). A status code is its number, and a text the list of its bytes.
pub mod Retries
mod Tests
use typeway.Base.{
  ℕ, zero, suc, ◌+◌, ◌%◌, ◌^◌, Bool, true, false, List, [], ◌∷◌, Option, none, some, any, ◌==◌,
  if◌then◌else◌,
}

-- `request` holds what `reqwest::Error::is_timeout` says of the error.
pub data ClientError : Type 0 where
  status : (code : ℕ) (body : List ℕ) → ClientError
  url : ClientError
  request : (timed_out : Bool) → ClientError
  deserialize : (text : List ℕ) → ClientError
  serialize : (text : List ℕ) → ClientError
  timeout : ClientError
  retry_exhausted : (last_error : ClientError) (attempts : ℕ) → ClientError

unfoldable pub is_timeout : ClientError → Bool
is_timeout timeout = true
is_timeout (request timed_out) = timed_out
is_timeout _ = false

-- The fields that decide; the durations only tell how long an attempt is put off.
pub record RetryPolicy : Type 0 where
  pub max_retries : ℕ
  pub retry_on_status : List ℕ
  pub retry_on_timeout : Bool

unfoldable pub default_policy : RetryPolicy
default_policy = record {
  max_retries = 3;
  retry_on_status = 429 ∷ 502 ∷ 503 ∷ 504 ∷ [];
  retry_on_timeout = true;
}

unfoldable pub no_retries : RetryPolicy
no_retries = record { max_retries = 0; retry_on_status = []; retry_on_timeout = false }

unfoldable pub should_retry_status : RetryPolicy → ℕ → Bool
should_retry_status policy code = any (λ c. c == code) policy.retry_on_status

unfoldable pub is_retryable : ClientError → RetryPolicy → Bool
unfolding should_retry_status is_timeout
is_retryable (status code body) policy = should_retry_status policy code
is_retryable timeout policy =
    if is_timeout timeout then policy.retry_on_timeout else policy.retry_on_timeout
is_retryable (request timed_out) policy =
    if is_timeout (request timed_out) then policy.retry_on_timeout else policy.retry_on_timeout
is_retryable _ policy = false

pub data Result (A : Type 0) : Type 0 where
  ok : A → Result A
  err : ClientError → Result A

module _ {A : Type 0} (policy : RetryPolicy) (attempt : ℕ → Result A) where
  -- The `for` loop, with the rounds that are left, the number of the next attempt, and `last_error`. The
  -- second part of the result is the number of attempts that were made.
  unfoldable pub retry_loop : ℕ → ℕ → ClientError → Result A × ℕ
  unfolding is_retryable
  retry_loop zero k last_error =
      (err (retry_exhausted last_error ((policy.max_retries + 1) % 2 ^ 32)), k)
  retry_loop (suc rounds) k last_error = elim (attempt k) [
    | ok a ↦ (ok a, suc k)
    | err e ↦
        let rest = retry_loop rounds (suc k) e in
        if is_retryable e policy then rest else (err e, suc k)
  ]

  -- The attempts of a call, numbered from 0: `call_inner` with the arguments of the call.
  unfoldable pub attempts_loop : Result A × ℕ
  unfolding retry_loop is_retryable
  attempts_loop = elim (attempt 0) [
    | ok a ↦ (ok a, 1)
    | err e ↦ if is_retryable e policy then retry_loop policy.max_retries 1 e else (err e, 1)
  ]

-- `TypedResponse`: the body, the status and the headers.
pub record TypedResponse (H A : Type 0) : Type 0 where
  pub body : A
  pub code : ℕ
  pub headers : H

abbrev pub map_result : {A B : Type 0} → (A → B) → Result A → Result B
map_result f (ok a) = ok (f a)
map_result f (err e) = err e

module _ {H A : Type 0} (policy : RetryPolicy) (call_inner : ℕ → Result (TypedResponse H A)) where
  unfoldable pub call_with_retry_full : Result (TypedResponse H A)
  unfolding attempts_loop
  call_with_retry_full = (attempts_loop policy call_inner).0

  unfoldable pub call_with_retry : Result A
  unfolding call_with_retry_full
  call_with_retry = map_result (λ typed. typed.body) call_with_retry_full

  -- The same loop, with the overrides of the call in each attempt; the body is returned.
  unfoldable pub call_with_retry_query : Result A
  unfolding attempts_loop
  call_with_retry_query = map_result (λ typed. typed.body) ((attempts_loop policy call_inner).0)
