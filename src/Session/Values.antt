-- ===== src/Session/Values.antt =====
-- The data of handler/session.go: a session's values, the request that carries them and the
-- answers of handler/response.go.
use wireguard_ui.Prelude.{ℕ, zero, suc, String, Bool, Option, none, some}

-- `negsuc n` is -(n + 1).
pub data ℤ : Type 0 where
  pos negsuc : ℕ → ℤ

-- The dynamic type and value of `sess.Values["max_age"]`; of a `float64` its integral part.
pub data MaxAge : Type 0 where
  nil : MaxAge
  int int32 int64 float64 : ℤ → MaxAge

-- `sess.Values["user_hash"]`: a `uint32`, or a value of another type.
pub data HashValue : Type 0 where
  uint32 : ℕ → HashValue
  other : HashValue

-- `sess.Values`; `none` is an absent key, or for the times a value that is no `int64`.
pub record Session : Type 0 where
  pub username : Option String
  pub user_hash : HashValue
  pub admin : Option Bool
  pub session_token : Option String
  pub max_age : MaxAge
  pub created_at : Option ℕ
  pub updated_at : Option ℕ
  pub pk_login_cred : Option String

-- A request and the cookies of its answer. `session` and `age` are the session object of the
-- request, `saved` and `saved_age` what the browser holds after the answer; `token` is the
-- request's cookie `session_token`, `set_token` the one that the answer sets, with its age.
-- `saves` tells whether `sess.Save` succeeds.
pub record Context : Type 0 where
  pub session : Session
  pub age : ℤ
  pub saved : Session
  pub saved_age : ℤ
  pub token : Option String
  pub set_token : Option (String × ℤ)
  pub saves : Bool
  pub client_header : String
  pub is_get : Bool
  pub path : String
  pub url : String
  pub now : ℕ

-- The variables of util/config.go that the handlers read.
pub record Config : Type 0 where
  pub disable_login : Bool
  pub session_max_duration : ℕ
  pub base_path : String

-- A fixed text, a key of the locale files, or the text of an error.
pub data Message : Type 0 where
  lit : String → Message
  tr : String → Message
  failure : Message

-- `json` has the HTTP status, `reauthenticate` has status 200, `redirect` status 307.
pub data Reply : Type 0 where
  json : ℕ → Bool → Message → Reply
  reauthenticate : Message → Reply
  redirect : String → Reply

abbrev pub text_or : String → Option String → String
text_or d none = d
text_or d (some s) = s

abbrev pub number_or : ℕ → Option ℕ → ℕ
number_or d none = d
number_or d (some n) = n

-- The token that the browser holds after an answer: a cookie whose age is not positive is dropped.
abbrev pub kept_token : Option String → Option (String × ℤ) → Option String
kept_token old none = old
kept_token old (some (t, pos zero)) = none
kept_token old (some (t, pos (suc n))) = some t
kept_token old (some (t, negsuc n)) = none

-- The same client's next request.
abbrev pub follow_up : Context → ℕ → Context
follow_up c later = record c {
  session = c.saved;
  token = kept_token c.token c.set_token;
  set_token = none;
  now = later;
}
