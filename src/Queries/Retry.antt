-- ===== src/Queries/Retry.antt =====
-- When a failed query is sent again: `retry` and `retryDelay` of the client in frontend/src/App.tsx.
use energlens.Common.{
  ℕ, zero, suc, ◌*◌, ◌^◌, ◌≤◌, ◌≡◌, refl, Bool, false, ◌&&◌, min, ltb, if◌then◌else◌, arith,
}
use energlens.Client.{Thrown, api_failure, type_error, other_error, not_an_error}
use energlens.Errors.{describe_error}

unfoldable pub retry : ℕ → Thrown → Bool
retry failure_count (api_failure e) = if ltb e.status 500 then false else ltb failure_count 3
retry failure_count _ = ltb failure_count 3

unfoldable pub retry_delay : ℕ → ℕ
retry_delay attempt = min (1000 * 2 ^ attempt) 8000

-- A failed query is sent again by itself in just the cases in which, online, the user is offered a Retry
-- button, and at most three times.
pub retry-can_retry :
    (failure_count : ℕ) (error : Thrown)
    → retry failure_count error ≡ ((describe_error false error).can_retry && ltb failure_count 3)
unfolding retry describe_error
retry-can_retry k (api_failure e) = ground arith
retry-can_retry k (type_error s) = refl
retry-can_retry k (other_error s) = refl
retry-can_retry k not_an_error = refl

pow-pos : (k : ℕ) → 1 ≤ 2 ^ k
pow-pos zero = omega arith
pow-pos (suc k) = omega (arith, pow-pos k)

-- The wait before a query is sent again is one second at first, doubles with every further attempt and
-- stops growing at eight seconds; so it is always between one and eight seconds and never falls.
pub retry_delay-bounds :
    (attempt : ℕ)
    → (retry_delay 0 ≡ 1000)
      × (retry_delay (suc attempt) ≡ min (2 * retry_delay attempt) 8000)
      × (1000 ≤ retry_delay attempt)
      × (retry_delay attempt ≤ 8000)
      × (retry_delay attempt ≤ retry_delay (suc attempt))
unfolding retry_delay
retry_delay-bounds k = omega (arith, pow-pos k)
