-- ===== src/Push/Broadcast.antt =====
-- `Broadcast` of pushnotify/pushnotify.go, over the limiter and the token file, and the notices of the
-- peers and of the tunnel. The calls of one process are taken one after the other.
pub mod Sendings
pub mod Minute
use Prim.Native.String
use wireguard_ui.Prelude.{
  ℕ, suc, String, Bool, true, false, not, ◌&&◌, ◌||◌, Option, none, some, List, [], ◌∷◌, ◌++◌, ◌==◌,
  if◌then◌else◌,
}
use wireguard_ui.Text.{trim_space}
use wireguard_ui.Push.{RateLimiter, allow}
use wireguard_ui.Push.Tokens.{
  Writing, TokenRecord, TokenFile, read_tokens_file, register_or_update, unregister,
}

-- `messaging.Message`, with the parts of its Android configuration.
pub record Message : Type 0 where
  pub title : String
  pub body : String
  pub token : String
  pub priority : String
  pub color : String
  pub channel_id : String

abbrev android_notification_channel_id : String
android_notification_channel_id = "wgui_alerts"

abbrev android_notification_accent_color : String
android_notification_accent_color = "#4FC3F7"

abbrev pub max_per_token_per_minute : ℕ
max_per_token_per_minute = 3

-- What `Send` returns: no error, one that tells that the token is not registered or an argument
-- invalid, or another one.
pub data SendResult : Type 0 where
  delivered rejected failed : SendResult

-- One turn of the loop: the time, the answer of the messaging service, what a write comes to.
pub record Moment : Type 0 where
  pub now : ℕ
  pub send : Message → SendResult
  pub writes : Writing

-- A message that was handed to the service.
pub record Sent : Type 0 where
  pub at : ℕ
  pub message : Message
  pub result : SendResult

-- `client` tells that there is a messaging client and a path getter.
pub record Pushes : Type 0 where
  pub client : Bool
  pub db_path : String
  pub rate : RateLimiter
  pub tokens : TokenFile
  pub last_tunnel_was_up : Option Bool

unfoldable pub message_to : String → String → String → Message
message_to title body token = record {
  title = title;
  body = body;
  token = token;
  priority = "high";
  color = android_notification_accent_color;
  channel_id = android_notification_channel_id;
}

-- The two `continue` tests at the head of the loop.
unfoldable pub is_skipped : String → TokenRecord → Bool
is_skipped omit rec = rec.token == "" || (not (omit == "") && rec.token == omit)

unfoldable pub unregister_rejected : SendResult → Writing → String → String → TokenFile → TokenFile
unregister_rejected delivered writes path token f = f
unregister_rejected failed writes path token f = f
unregister_rejected rejected writes path token f = (unregister writes path token f).0

-- The rest of a turn, for a token that is not skipped.
unfoldable pub offer : Moment → String → String → String → Pushes → Pushes × List Sent
unfolding message_to unregister_rejected
offer m title body token p =
    let (rate, passed) = allow p.rate token m.now in
    let message : Message = message_to title body token in
    if passed
    then (
      record p {
        rate = rate;
        tokens = unregister_rejected (m.send message) m.writes p.db_path token p.tokens;
      },
      record { at = m.now; message = message; result = m.send message } ∷ [],
    )
    else (record p { rate = rate }, [])

-- The loop; turn `i` happens at the moment `at i`.
unfoldable pub send_all :
    (ℕ → Moment) → ℕ → String → String → String → List TokenRecord → Pushes → Pushes × List Sent
unfolding offer is_skipped
send_all at i title body omit [] p = (p, [])
send_all at i title body omit (rec ∷ recs) p =
    if is_skipped omit rec
    then send_all at (suc i) title body omit recs p
    else (let (p₁, sent) = offer (at i) title body rec.token p in
        let (p₂, later) = send_all at (suc i) title body omit recs p₁ in (p₂, sent ++ later))

-- The loop over the records that were loaded, if they were.
unfoldable pub send_loaded :
    (ℕ → Moment)
    → String
    → String
    → String
    → Option (List TokenRecord)
    → Pushes
    → Pushes × List Sent
unfolding send_all
send_loaded at title body omit none p = (p, [])
send_loaded at title body omit (some recs) p = send_all at 0 title body omit recs p

unfoldable pub broadcast : (ℕ → Moment) → String → String → String → Pushes → Pushes × List Sent
unfolding send_loaded read_tokens_file
broadcast at title body omit_device_token p =
    if not p.client || p.db_path == ""
    then (p, [])
    else send_loaded at title body (trim_space omit_device_token) (read_tokens_file p.tokens) p

unfoldable pub name_or : String → String → String
name_or missing name = let n = trim_space name in if n == "" then missing else n

unfoldable pub peer_created : (ℕ → Moment) → String → String → Pushes → Pushes × List Sent
unfolding name_or broadcast
peer_created at name omit =
    broadcast at "WireGuard UI · Peer" (String.◌++◌ "Nuevo peer: " (name_or "(sin nombre)" name))
      omit

unfoldable pub peer_removed : (ℕ → Moment) → String → String → Pushes → Pushes × List Sent
unfolding name_or broadcast
peer_removed at name omit =
    broadcast at "WireGuard UI · Peer" (String.◌++◌ "Peer eliminado: " (name_or "peer" name)) omit

unfoldable pub peer_enable_changed :
    (ℕ → Moment) → String → Bool → String → Pushes → Pushes × List Sent
unfolding name_or broadcast
peer_enable_changed at name enabled omit =
    let msg = if enabled then "habilitado" else "deshabilitado" in
    broadcast at "WireGuard UI · Peer" (String.◌++◌ (name_or "peer" name) (String.◌++◌ ": " msg))
      omit

-- `*lastTunnelWasUp == running`
abbrev pub same : Bool → Bool → Bool
same a b = if a then b else not b

-- By the value of `lastTunnelWasUp`.
unfoldable pub transition_from : Option Bool → (ℕ → Moment) → Bool → Pushes → Pushes × List Sent
unfolding broadcast
transition_from none at running p = (record p { last_tunnel_was_up = some running }, [])
transition_from (some was) at running p =
    if same was running
    then (p, [])
    else broadcast at "WireGuard UI · Tunnel"
        (if running then "The WireGuard interface is up" else "The WireGuard interface is down") ""
        (record p { last_tunnel_was_up = some running })

unfoldable pub tunnel_running_transition : (ℕ → Moment) → Bool → Pushes → Pushes × List Sent
unfolding transition_from
tunnel_running_transition at running p = transition_from p.last_tunnel_was_up at running p

-- What happens to the notices, one after the other.
pub data Step : Type 0 where
  announces : (ℕ → Moment) → String → String → String → Step
  polls : (ℕ → Moment) → Bool → Step
  registers : Writing → ℕ → String → String → String → Step
  unregisters : Writing → String → Step

unfoldable pub step : Step → Pushes → Pushes × List Sent
unfolding broadcast tunnel_running_transition
step (announces at title body omit) p = broadcast at title body omit p
step (polls at running) p = tunnel_running_transition at running p
step (registers writes now user token platform) p = (
  record p { tokens = (register_or_update writes now p.db_path user token platform p.tokens).0 },
  [],
)
step (unregisters writes token) p =
    (record p { tokens = (unregister writes p.db_path token p.tokens).0 }, [])

unfoldable pub run : List Step → Pushes → Pushes × List Sent
unfolding step
run [] p = (p, [])
run (s ∷ ss) p = let (p₁, sent) = step s p in let (p₂, later) = run ss p₁ in (p₂, sent ++ later)
