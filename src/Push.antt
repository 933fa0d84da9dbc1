-- ===== src/Push.antt =====
-- pushnotify: the rate limiter of pushnotify/pushnotify.go and the file of device tokens of
-- pushnotify/tokens.go, each under its mutex.
pub mod Window
pub mod Tokens
pub mod Broadcast
pub mod Handlers
use wireguard_ui.Prelude.{
  ℕ, suc, ◌+◌, String, Bool, true, false, List, [], ◌∷◌, ◌++◌, ◌==◌, leb, ltb, length,
  if◌then◌else◌,
}

-- Times and the window are in nanoseconds.
pub record RateLimiter : Type 0 where
  pub max : ℕ
  pub window : ℕ
  pub hits : String → List ℕ

unfoldable pub new_rate_limiter : ℕ → RateLimiter
new_rate_limiter max = record { max = max; window = 60_000_000_000; hits = λ token. [] }

-- The times that are after `now` less the window.
unfoldable pub recent : ℕ → ℕ → List ℕ → List ℕ
recent window now [] = []
recent window now (t ∷ ts) =
    let rest = recent window now ts in if ltb now (t + window) then t ∷ rest else rest

abbrev pub put : (String → List ℕ) → String → List ℕ → String → List ℕ
put m k v j = if k == j then v else m j

unfoldable pub allow : RateLimiter → String → ℕ → RateLimiter × Bool
unfolding recent
allow r token now =
    let kept = recent r.window now (r.hits token) in
    if leb r.max (length kept)
    then (r, false)
    else (record r { hits = put r.hits token (kept ++ now ∷ []) }, true)

-- The limiter after some calls, and the times at which one token was let through.
unfoldable pub run : RateLimiter → List (String × ℕ) → RateLimiter
unfolding allow
run r [] = r
run r ((token, now) ∷ calls) = run (allow r token now).0 calls

unfoldable pub allowed_times : RateLimiter → String → List (String × ℕ) → List ℕ
allowed_times r token [] = []
allowed_times r token ((called, now) ∷ calls) =
    let (r', passed) = allow r called now in
    let rest = allowed_times r' token calls in
    if called == token then (if passed then now ∷ rest else rest) else rest
