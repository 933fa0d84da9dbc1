-- ===== src/Examples/Notices.antt =====
-- Notices to two devices, of which the service does not know the first, and the requests about them.
use wireguard_ui.Prelude.{
  ℕ, ◌≤◌, String, not, ◌&&◌, ◌≡◌, ◌≢◌, ◌⊎◌, refl, true, false, none, some, List, [], ◌∷◌, ◌==◌,
  eq_iff, length, All, if◌then◌else◌, arith,
}
use wireguard_ui.Text.{trim_space}
use wireguard_ui.Push.{new_rate_limiter, recent, allow}
use wireguard_ui.Push.Tokens.{cut_short, wrote_all, TokenFile, holds, unregister}
use wireguard_ui.Push.Tokens.Owners.{owner}
use wireguard_ui.Push.Broadcast.{
  Moment, delivered, rejected, Pushes, broadcast, Step, announces, polls, run,
}
use wireguard_ui.Push.Broadcast.Sendings.{
  IsWanted, broadcast-IsWanted, is_rejected, owner-broadcast,
}
use wireguard_ui.Push.Broadcast.Minute.{times, run_calls, run_bounded}
use wireguard_ui.Push.Handlers.{
  PushTokenBody, is_success, IsLeft, register_push_token, owner-register_push_token,
}

abbrev file : TokenFile
file = holds (
    record { username = "ann"; token = "d1"; platform = "android"; updated = 3 }
    ∷ record { username = "bob"; token = "d2"; platform = "ios"; updated = 4 }
    ∷ [])

abbrev pushes : Pushes
pushes = record {
  client = true;
  db_path = "./db";
  rate = new_rate_limiter 3;
  tokens = file;
  last_tunnel_was_up = some false;
}

-- Every turn happens one second after the start, and a send of the first token fails.
abbrev moments : ℕ → Moment
moments i = record {
  now = 1_000_000_000;
  send = λ m. if m.token == "d1" then rejected else delivered;
  writes = wrote_all;
}

broadcast-IsWanted_example :
    All
      (IsWanted "Title" "Text" (trim_space " d2 ") file)
      (broadcast moments "Title" "Text" " d2 " pushes).1
broadcast-IsWanted_example = broadcast-IsWanted moments "Title" "Text" " d2 " pushes

owner-broadcast_example : owner (broadcast moments "Title" "Text" "" pushes).0.tokens "d1" ≡ (
    if is_rejected (broadcast moments "Title" "Text" "" pushes).1 "d1"
    then none
    else owner file "d1")
owner-broadcast_example = owner-broadcast moments "Title" "Text" "" "d1" pushes (λ i. refl)

abbrev steps : List Step
steps =
    announces moments "Title" "Text" ""
    ∷ polls moments true
    ∷ announces moments "Title" "Text" ""
    ∷ polls moments false
    ∷ []

run_bounded_example :
    length (recent 60_000_000_000 2_000_000_000 (times "d2" (run steps pushes).1)) ≤ 3
unfolding run_calls new_rate_limiter trim_space allow unregister
run_bounded_example =
    run_bounded "d2" steps pushes 2_000_000_000 refl
      (omega arith, (omega arith, (omega arith, (omega arith, (omega arith, omega arith)))))

abbrev body : PushTokenBody
body = record { token = " d1\n"; platform = "android" }

abbrev db : String
db = "./db"

abbrev bob : String
bob = "bob"

abbrev sent : String
sent = " d1\n"

db_given : db ≢ ""
db_given e = ground (arith, eq_iff db "")

owner-register_push_token_example :
    ((is_success (register_push_token cut_short 9 db bob (some body) file).1 ≡ true)
      × ((t : String)
          → owner (register_push_token cut_short 9 db bob (some body) file).0 t
            ≡ (if not (bob == "") && trim_space body.token == t then some bob else owner file t)))
    ⊎ ((is_success (register_push_token cut_short 9 db bob (some body) file).1 ≡ false)
        × IsLeft cut_short
            (register_push_token wrote_all 9 db bob (some body) file).0
            file
            (register_push_token cut_short 9 db bob (some body) file).0)
owner-register_push_token_example = owner-register_push_token cut_short 9 db bob body file db_given
