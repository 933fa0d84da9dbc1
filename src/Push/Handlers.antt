-- ===== src/Push/Handlers.antt =====
-- handler/push_token.go.
use wireguard_ui.Prelude.{
  ℕ, String, Bool, true, false, not, ◌&&◌, ◌≡◌, ◌≢◌, ◌⊎◌, inl, inr, refl, Bool-cases, Option, none,
  some, ◌==◌, arith, eq_iff, if◌then◌else◌,
}
use wireguard_ui.Text.{trim_space}
use wireguard_ui.Session.Values.{Reply, reauthenticate, redirect, json, lit, failure}
use wireguard_ui.Push.Tokens.{
  Writing, wrote_all, not_opened, cut_short, not_closed, TokenFile, broken, write_tokens_file,
  register_or_update, unregister,
}
use wireguard_ui.Push.Tokens.Owners.{owner, owner-register_or_update, owner-unregister}

-- `none` is a body that does not decode.
pub record PushTokenBody : Type 0 where
  pub token : String
  pub platform : String

unfoldable pub register_push_token :
    Writing → ℕ → String → String → Option PushTokenBody → TokenFile → TokenFile × Reply
unfolding register_or_update
register_push_token writes now db_path user none f = (f, json 400 false (lit "Bad post data"))
register_push_token writes now db_path user (some body) f =
    let token = trim_space body.token in
    if token == ""
    then (f, json 400 false (lit "Missing token"))
    else (let (f', done) = register_or_update writes now db_path user token body.platform f in
        if done then (f', json 200 true (lit "OK")) else (f', json 500 false failure))

unfoldable pub unregister_push_token :
    Writing → String → Option String → TokenFile → TokenFile × Reply
unfolding unregister
unregister_push_token writes db_path none f = (f, json 400 false (lit "Bad post data"))
unregister_push_token writes db_path (some sent) f =
    let token = trim_space sent in
    if token == ""
    then (f, json 400 false (lit "Missing token"))
    else (let (f', done) = unregister writes db_path token f in
        if done then (f', json 200 true (lit "OK")) else (f', json 500 false failure))

-- Whether an answer reports success.
abbrev pub is_success : Reply → Bool
is_success (json status success message) = success
is_success (reauthenticate message) = false
is_success (redirect target) = false

-- What is left of the token file when a request is not answered with success: the file as it was; the
-- part that a write left; or, where only the closing failed, what a success leaves.
pub IsLeft : Writing → TokenFile → TokenFile → TokenFile → Type 0
IsLeft writes success f f' =
    (f' ≡ f) ⊎ ((writes ≡ cut_short) × (f' ≡ broken)) ⊎ ((writes ≡ not_closed) × (f' ≡ success))

registered :
    (writes : Writing) (now : ℕ) (db_path user : String) (body : PushTokenBody) (f : TokenFile)
    (t : String)
    → db_path ≢ ""
    → is_success (register_push_token writes now db_path user (some body) f).1 ≡ true
    → owner (register_push_token writes now db_path user (some body) f).0 t
      ≡ (if not (user == "") && trim_space body.token == t then some user else owner f t)
unfolding register_push_token register_or_update write_tokens_file
registered writes now db_path user body f t d done =
    let token = trim_space body.token in
    ground (
      arith,
      eq_iff token "",
      eq_iff user "",
      eq_iff db_path "",
      owner-register_or_update writes now db_path user token body.platform f t d,
    )

left :
    (writes : Writing) (now : ℕ) (db_path user : String) (body : PushTokenBody) (f : TokenFile)
    → is_success (register_push_token writes now db_path user (some body) f).1 ≡ false
    → IsLeft writes
        (register_push_token wrote_all now db_path user (some body) f).0
        f
        (register_push_token writes now db_path user (some body) f).0
unfolding IsLeft register_push_token register_or_update write_tokens_file
left wrote_all now db_path user body f e = inl (ground arith)
left not_opened now db_path user body f e = inl (ground arith)
left cut_short now db_path user body f e = ground arith
left not_closed now db_path user body f e = inr (inr (refl, ground arith))

-- Over a database with a path, after `RegisterPushToken`: either the answer reports success, and
-- then the trimmed token of the body belongs to the user, if the user has a name, and every other
-- token to whom it belonged before; or it does not, and then the token file is as it was, or it
-- does not decode, which a write that was cut short leaves, or only its closing failed and it is
-- what a success leaves.
pub owner-register_push_token :
    (writes : Writing) (now : ℕ) (db_path user : String) (body : PushTokenBody) (f : TokenFile)
    → db_path ≢ ""
    → let (f', reply) = register_push_token writes now db_path user (some body) f in
      ((is_success reply ≡ true)
        × ((t : String)
            → owner f' t
              ≡ (if not (user == "") && trim_space body.token == t then some user else owner f t)))
      ⊎ ((is_success reply ≡ false)
          × IsLeft writes (register_push_token wrote_all now db_path user (some body) f).0 f f')
unfolding register_push_token
owner-register_push_token writes now db_path user body f d =
    elim (Bool-cases (is_success (register_push_token writes now db_path user (some body) f).1)) [
      | inl done ↦ inl (done, λ t. registered writes now db_path user body f t d done)
      | inr failed ↦ inr (failed, left writes now db_path user body f failed)
    ]

-- Over a database with a path: after `UnregisterPushToken` the trimmed token belongs to nobody when
-- the answer reports success, and every other token to whom it belonged before.
pub owner-unregister_push_token :
    (writes : Writing) (db_path sent : String) (f : TokenFile) (t : String)
    → db_path ≢ ""
    → is_success (unregister_push_token writes db_path (some sent) f).1 ≡ true
    → owner (unregister_push_token writes db_path (some sent) f).0 t
      ≡ (if trim_space sent == t then none else owner f t)
unfolding unregister_push_token unregister write_tokens_file
owner-unregister_push_token writes db_path sent f t d done =
    let token = trim_space sent in
    ground (arith, eq_iff token "", eq_iff db_path "", owner-unregister writes db_path token f t d)
