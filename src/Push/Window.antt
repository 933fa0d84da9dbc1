-- ===== src/Push/Window.antt =====
-- The rate limiter lets at most its maximum through in any window.
use wireguard_ui.Prelude.{
  ℕ, ◌≤◌, String, ◌≡◌, refl, List, [], ◌∷◌, ◌++◌, ◌==◌, eq_iff, length, length-append,
  if◌then◌else◌, arith,
}
use mathlib.Core.List.{append_assoc, append-nil}
use wireguard_ui.Push.{RateLimiter, new_rate_limiter, recent, allow, allowed_times}

recent-append : (w c : ℕ) (xs ys : List ℕ) → recent w c (xs ++ ys) ≡ recent w c xs ++ recent w c ys
unfolding recent
recent-append w c [] ys = refl
recent-append w c (x ∷ xs) ys = ground (arith, recent-append w c xs ys)

-- what is recent later is recent now
recent-recent : (w c d : ℕ) (xs : List ℕ) → c ≤ d → recent w d (recent w c xs) ≡ recent w d xs
unfolding recent
recent-recent w c d [] h = refl
recent-recent w c d (x ∷ xs) h = ground (arith, recent-recent w c d xs h)

length-recent-le : (w c : ℕ) (xs : List ℕ) → length (recent w c xs) ≤ length xs
unfolding recent
length-recent-le w c [] = omega arith
length-recent-le w c (x ∷ xs) = ground (arith, length-recent-le w c xs)

-- The calls come in the order of time, from a first one on, up to a last one.
abbrev pub IsOrdered : ℕ → List (String × ℕ) → ℕ → Type 0
IsOrdered first [] last = first ≤ last
IsOrdered first ((token, now) ∷ calls) last = (first ≤ now) × IsOrdered now calls last

-- The log of a token and its hits agree on what is recent from some time on.
record IsLog (r : RateLimiter) (token : String) (log : List ℕ) (from : ℕ) : Type 0 where
  same : (c : ℕ) → from ≤ c → recent r.window c log ≡ recent r.window c (r.hits token)
  fits : length (r.hits token) ≤ r.max

-- The log after a call.
abbrev logged : RateLimiter → String → List ℕ → String → ℕ → List ℕ
logged r token log called now =
    if called == token then (if (allow r called now).1 then log ++ now ∷ [] else log) else log

window-allow :
    (r : RateLimiter) (called : String) (now : ℕ) → (allow r called now).0.window ≡ r.window
unfolding allow
window-allow r called now = ground arith

max-allow : (r : RateLimiter) (called : String) (now : ℕ) → (allow r called now).0.max ≡ r.max
unfolding allow
max-allow r called now = ground arith

allow-same :
    (r : RateLimiter) (token called : String) (log : List ℕ) (from now c : ℕ)
    → IsLog r token log from
    → from ≤ now
    → now ≤ c
    → recent r.window c (logged r token log called now)
      ≡ recent r.window c ((allow r called now).0.hits token)
unfolding allow
allow-same r token called log from now c h le le' = ground (
  arith,
  h.same c,
  recent-append r.window c log (now ∷ []),
  recent-append r.window c (recent r.window now (r.hits token)) (now ∷ []),
  recent-recent r.window now c (r.hits token) le',
  eq_iff called token,
)

allow-fits :
    (r : RateLimiter) (token called : String) (log : List ℕ) (from now : ℕ)
    → IsLog r token log from
    → length ((allow r called now).0.hits token) ≤ r.max
unfolding allow
allow-fits r token called log from now h = ground (
  arith,
  h.fits,
  length-append (recent r.window now (r.hits called)) (now ∷ []),
  eq_iff called token,
)

allow-IsLog :
    (r : RateLimiter) (token called : String) (log : List ℕ) (from now : ℕ)
    → IsLog r token log from
    → from ≤ now
    → IsLog (allow r called now).0 token (logged r token log called now) now
allow-IsLog r token called log from now h le = record {
  same =
      λ c le'. rw (window-allow r called now) (allow-same r token called log from now c h le le');
  fits = rw (max-allow r called now) (allow-fits r token called log from now h);
}

log_step :
    (r : RateLimiter) (token called : String) (log : List ℕ) (now : ℕ) (calls : List (String × ℕ))
    → log ++ allowed_times r token ((called, now) ∷ calls)
      ≡ logged r token log called now ++ allowed_times (allow r called now).0 token calls
unfolding allowed_times
log_step r token called log now calls =
    ground (arith, append_assoc log (now ∷ []) (allowed_times (allow r called now).0 token calls))

bound_from :
    (r : RateLimiter) (token : String) (log : List ℕ) (first last : ℕ) (calls : List (String × ℕ))
    → IsLog r token log first
    → IsOrdered first calls last
    → length (recent r.window last (log ++ allowed_times r token calls)) ≤ r.max
unfolding allowed_times
bound_from r token log first last [] h o =
    rw (append-nil log)
      (ground (arith, h.same last o, h.fits, length-recent-le r.window last (r.hits token)))
bound_from r token log first last ((called, now) ∷ calls) h (le, o) =
    let later =
      bound_from (allow r called now).0 token (logged r token log called now) now last calls
        (allow-IsLog r token called log first now h le) o in
    rw (log_step r token called log now calls)
      (ground (arith, later, window-allow r called now, max-allow r called now))

-- From a new limiter on, over any calls for any tokens in the order of time, at most the maximum of
-- calls for one token is let through in the minute up to any time from the last call on.
pub allow_bounded :
    (max last : ℕ) (token : String) (calls : List (String × ℕ))
    → IsOrdered 0 calls last
    → length (recent 60_000_000_000 last (allowed_times (new_rate_limiter max) token calls)) ≤ max
unfolding new_rate_limiter
allow_bounded max last token calls o =
    bound_from (new_rate_limiter max) token [] 0 last calls
      (record { same = λ c le. refl; fits = omega arith }) o
