-- ===== src/Push/Tokens.antt =====
-- pushnotify/tokens.go.
pub mod Owners
use wireguard_ui.Prelude.{
  ℕ, String, Bool, true, false, not, ◌||◌, Option, none, some, List, [], ◌∷◌, ◌++◌, ◌==◌,
  if◌then◌else◌,
}
use wireguard_ui.Text.{trim_space}

pub record TokenRecord : Type 0 where
  pub username : String
  pub token : String
  pub platform : String
  pub updated : ℕ

-- The file `push_tokens.json`: not there, not readable or not decodable, or with its records.
pub data TokenFile : Type 0 where
  missing broken : TokenFile
  holds : List TokenRecord → TokenFile

unfoldable pub read_tokens_file : TokenFile → Option (List TokenRecord)
read_tokens_file missing = some []
read_tokens_file broken = none
read_tokens_file (holds l) = some l

-- What `os.WriteFile` comes to. It truncates the file when it opens it: an error on opening leaves the
-- file, one on writing leaves a part that does not decode, and one on closing the whole text.
pub data Writing : Type 0 where
  wrote_all not_opened cut_short not_closed : Writing

unfoldable pub write_tokens_file : Writing → List TokenRecord → TokenFile → TokenFile × Bool
write_tokens_file wrote_all l f = (holds l, true)
write_tokens_file not_opened l f = (f, false)
write_tokens_file cut_short l f = (broken, false)
write_tokens_file not_closed l f = (holds l, false)

-- The loop of `RegisterOrUpdate`: the records, and whether one was replaced.
unfoldable pub replace_token : TokenRecord → List TokenRecord → List TokenRecord × Bool
replace_token new [] = ([], false)
replace_token new (r ∷ rs) =
    let (out, replaced) = replace_token new rs in
    if r.token == new.token then (new ∷ out, true) else (r ∷ out, replaced)

unfoldable pub drop_token : String → List TokenRecord → List TokenRecord
drop_token token [] = []
drop_token token (r ∷ rs) =
    let out = drop_token token rs in if not (r.token == token) then r ∷ out else out

-- The result's second part tells that there was no error.
unfoldable pub register_or_update :
    Writing → ℕ → String → String → String → String → TokenFile → TokenFile × Bool
unfolding read_tokens_file write_tokens_file replace_token
register_or_update writes now db_path username token platform f =
    if db_path == "" || username == "" || token == ""
    then (f, true)
    else elim (read_tokens_file f) [
      | none ↦ (f, false)
      | some list ↦
          let new : TokenRecord = record {
            username = username;
            token = token;
            platform = trim_space platform;
            updated = now;
          } in
          let (out, replaced) = replace_token new list in
          write_tokens_file writes (if replaced then out else out ++ new ∷ []) f
    ]

unfoldable pub unregister : Writing → String → String → TokenFile → TokenFile × Bool
unfolding read_tokens_file write_tokens_file drop_token
unregister writes db_path token f =
    if db_path == "" || token == "" then (f, true) else elim (read_tokens_file f) [
      | none ↦ (f, false)
      | some list ↦ write_tokens_file writes (drop_token token list) f
    ]
