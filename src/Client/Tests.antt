-- ===== src/Client/Tests.antt =====
-- Tests of the client's retries, and the theorem at a server that recovers.
use typeway.Base.{ℕ, ◌≡◌, refl, [], ltb, if◌then◌else◌}
use typeway.Client.{
  status, retry_exhausted, default_policy, no_retries, Result, ok, err, attempts_loop,
}
use typeway.Client.Retries.{IsAnswer, attempts_loop-IsAnswer}

-- A server that is unavailable for two attempts.
abbrev recovers : ℕ → Result ℕ
recovers k = if ltb k 2 then err (status 503 []) else ok 7

third_attempt : attempts_loop default_policy recovers ≡ (ok 7, 3)
unfolding attempts_loop default_policy
third_attempt = refl

gives_up :
    attempts_loop (record default_policy { max_retries = 1 }) recovers
    ≡ (err (retry_exhausted (status 503 []) 2), 2)
unfolding attempts_loop default_policy
gives_up = refl

not_retried : attempts_loop no_retries recovers ≡ (err (status 503 []), 1)
unfolding attempts_loop no_retries
not_retried = refl

attempts_loop-IsAnswer_example :
    IsAnswer default_policy recovers (attempts_loop default_policy recovers)
attempts_loop-IsAnswer_example = attempts_loop-IsAnswer default_policy recovers
