-- ===== src/Push/Broadcast/Minute.antt =====
-- The messages to one token, over all that happens to the notices, in the minute before any time.
use wireguard_ui.Prelude.{
  ℕ, suc, ◌≤◌, String, ◌≡◌, refl, Bool, true, false, not, ◌||◌, Option, none, some, List, [], ◌∷◌,
  ◌++◌, ◌==◌, length, if◌then◌else◌, arith,
}
use wireguard_ui.Text.{trim_space}
use wireguard_ui.Push.{RateLimiter, new_rate_limiter, recent, allow, allowed_times}
use wireguard_ui.Push
use wireguard_ui.Push.Tokens.{TokenRecord, read_tokens_file}
use wireguard_ui.Push.Window.{IsOrdered, allow_bounded}
use wireguard_ui.Push.Broadcast.{
  Moment, Sent, Pushes, max_per_token_per_minute, is_skipped, offer, send_all, send_loaded,
  broadcast, same, transition_from, tunnel_running_transition, Step, announces, polls, registers,
  unregisters, step, run,
}

-- When the messages to a token were sent.
unfoldable pub times : String → List Sent → List ℕ
times token [] = []
times token (s ∷ ss) = if s.message.token == token then s.at ∷ times token ss else times token ss

times-append :
    (token : String) (xs ys : List Sent) → times token (xs ++ ys) ≡ times token xs ++ times token ys
unfolding times
times-append token [] ys = refl
times-append token (s ∷ ss) ys = ground (arith, times-append token ss ys)

run-append :
    (r : RateLimiter) (xs ys : List (String × ℕ))
    → Push.run r (xs ++ ys) ≡ Push.run (Push.run r xs) ys
unfolding Push.run
run-append r [] ys = refl
run-append r ((called, now) ∷ xs) ys = run-append (allow r called now).0 xs ys

allowed_times-append :
    (r : RateLimiter) (token : String) (xs ys : List (String × ℕ))
    → allowed_times r token (xs ++ ys)
      ≡ allowed_times r token xs ++ allowed_times (Push.run r xs) token ys
unfolding allowed_times Push.run
allowed_times-append r token [] ys = refl
allowed_times-append r token ((called, now) ∷ xs) ys =
    ground (arith, allowed_times-append (allow r called now).0 token xs ys)

-- The calls of the limiter, with their times.
unfoldable pub calls_of : (ℕ → Moment) → ℕ → String → List TokenRecord → List (String × ℕ)
unfolding is_skipped
calls_of at i omit [] = []
calls_of at i omit (rec ∷ recs) =
    if is_skipped omit rec
    then calls_of at (suc i) omit recs
    else (rec.token, (at i).now) ∷ calls_of at (suc i) omit recs

unfoldable calls_loaded : (ℕ → Moment) → String → Option (List TokenRecord) → List (String × ℕ)
unfolding calls_of
calls_loaded at omit none = []
calls_loaded at omit (some recs) = calls_of at 0 omit recs

unfoldable pub broadcast_calls : (ℕ → Moment) → String → Pushes → List (String × ℕ)
unfolding calls_loaded read_tokens_file
broadcast_calls at omit p =
    if not p.client || p.db_path == ""
    then []
    else calls_loaded at (trim_space omit) (read_tokens_file p.tokens)

unfoldable transition_calls : (ℕ → Moment) → Bool → Option Bool → Pushes → List (String × ℕ)
unfolding broadcast_calls
transition_calls at running none p = []
transition_calls at running (some was) p = if same was running then [] else broadcast_calls at "" p

unfoldable pub step_calls : Step → Pushes → List (String × ℕ)
unfolding broadcast_calls transition_calls
step_calls (announces at title body omit) p = broadcast_calls at omit p
step_calls (polls at running) p = transition_calls at running p.last_tunnel_was_up p
step_calls (registers writes now user token platform) p = []
step_calls (unregisters writes token) p = []

unfoldable pub run_calls : List Step → Pushes → List (String × ℕ)
unfolding step_calls step
run_calls [] p = []
run_calls (s ∷ ss) p = step_calls s p ++ run_calls ss (step s p).0

module _ (token : String) where
  -- A change of the notices that makes these calls of the limiter.
  abbrev Follows : Pushes → Pushes × List Sent → List (String × ℕ) → Type 0
  Follows p r calls =
      (r.0.rate ≡ Push.run p.rate calls) × (times token r.1 ≡ allowed_times p.rate token calls)

  by_test :
      (Q : Pushes × List Sent → List (String × ℕ) → Type 0) (b : Bool) (x y : Pushes × List Sent)
      (xs ys : List (String × ℕ))
      → Q x xs
      → Q y ys
      → Q (if b then x else y) (if b then xs else ys)
  by_test Q true x y xs ys h k = h
  by_test Q false x y xs ys h k = k

  Follows-append :
      (p : Pushes) (q r : Pushes × List Sent) (xs ys : List (String × ℕ))
      → Follows p q xs
      → Follows q.0 r ys
      → Follows p (r.0, q.1 ++ r.1) (xs ++ ys)
  Follows-append p q r xs ys h k = ground (
    arith,
    h,
    k,
    times-append token q.1 r.1,
    run-append p.rate xs ys,
    allowed_times-append p.rate token xs ys,
  )

  offer-Follows :
      (m : Moment) (title body called : String) (p : Pushes)
      → Follows p (offer m title body called p) ((called, m.now) ∷ [])
  unfolding offer times allowed_times Push.run
  offer-Follows m title body called p = ground arith

  send_all-Follows :
      (at : ℕ → Moment) (i : ℕ) (title body omit : String) (recs : List TokenRecord) (p : Pushes)
      → Follows p (send_all at i title body omit recs p) (calls_of at i omit recs)
  unfolding send_all calls_of times allowed_times Push.run
  send_all-Follows at i title body omit [] p = (refl, refl)
  send_all-Follows at i title body omit (rec ∷ recs) p =
      let q = offer (at i) title body rec.token p in
      by_test (Follows p) (is_skipped omit rec) _ _ _ _
        (send_all-Follows at (suc i) title body omit recs p)
        (Follows-append p q (send_all at (suc i) title body omit recs q.0)
          ((rec.token, (at i).now) ∷ []) (calls_of at (suc i) omit recs)
          (offer-Follows (at i) title body rec.token p)
          (send_all-Follows at (suc i) title body omit recs q.0))

  send_loaded-Follows :
      (at : ℕ → Moment) (title body omit : String) (o : Option (List TokenRecord)) (p : Pushes)
      → Follows p (send_loaded at title body omit o p) (calls_loaded at omit o)
  unfolding send_loaded calls_loaded times allowed_times Push.run
  send_loaded-Follows at title body omit none p = (refl, refl)
  send_loaded-Follows at title body omit (some recs) p =
      send_all-Follows at 0 title body omit recs p

  broadcast-Follows :
      (at : ℕ → Moment) (title body omit : String) (p : Pushes)
      → Follows p (broadcast at title body omit p) (broadcast_calls at omit p)
  unfolding broadcast broadcast_calls times allowed_times Push.run
  broadcast-Follows at title body omit p =
      by_test (Follows p) (not p.client || p.db_path == "") _ _ _ _ (refl, refl)
        (send_loaded-Follows at title body (trim_space omit) (read_tokens_file p.tokens) p)

  transition_from-Follows :
      (was : Option Bool) (at : ℕ → Moment) (running : Bool) (p : Pushes)
      → Follows p (transition_from was at running p) (transition_calls at running was p)
  unfolding transition_from transition_calls broadcast_calls times allowed_times Push.run
  transition_from-Follows none at running p = (refl, refl)
  transition_from-Follows (some was) at running p =
      by_test (Follows p) (same was running) _ _ _ _ (refl, refl)
        (broadcast-Follows at _ _ "" (record p { last_tunnel_was_up = some running }))

  step-Follows : (s : Step) (p : Pushes) → Follows p (step s p) (step_calls s p)
  unfolding step step_calls tunnel_running_transition times allowed_times Push.run
  step-Follows (announces at title body omit) p = broadcast-Follows at title body omit p
  step-Follows (polls at running) p = transition_from-Follows p.last_tunnel_was_up at running p
  step-Follows (registers writes now user called platform) p = (refl, refl)
  step-Follows (unregisters writes called) p = (refl, refl)

  run-Follows : (ss : List Step) (p : Pushes) → Follows p (run ss p) (run_calls ss p)
  unfolding run run_calls times allowed_times Push.run
  run-Follows [] p = (refl, refl)
  run-Follows (s ∷ ss) p =
      Follows-append p (step s p) (run ss (step s p).0) (step_calls s p) (run_calls ss (step s p).0)
        (step-Follows s p) (run-Follows ss (step s p).0)

-- From the limiter that `Init` makes on, over any broadcasts, polls of the tunnel and changes of the
-- token file of which the calls of the limiter come in the order of time, at most three messages go to
-- one token in the minute up to any time from the last call on.
pub run_bounded :
    (token : String) (ss : List Step) (p : Pushes) (last : ℕ)
    → p.rate ≡ new_rate_limiter max_per_token_per_minute
    → IsOrdered 0 (run_calls ss p) last
    → length (recent 60_000_000_000 last (times token (run ss p).1)) ≤ 3
run_bounded token ss p last e o =
    let h = (run-Follows token ss p).1 in
    ground (arith, h, e, allow_bounded 3 last token (run_calls ss p) o)
