-- ===== src/Push/Tokens/Owners.antt =====
-- To whom a device token belongs.
use wireguard_ui.Prelude.{
  ℕ, String, ◌≡◌, ◌≢◌, refl, true, false, Option, none, some, List, [], ◌∷◌, ◌++◌, ◌==◌, eq_iff,
  Bool-cases, Option-cases, inl, inr, if◌then◌else◌, arith,
}
use wireguard_ui.Text.{trim_space}
use wireguard_ui.Push.Tokens.{
  Writing, TokenRecord, TokenFile, read_tokens_file, write_tokens_file, replace_token, drop_token,
  register_or_update, unregister,
}

-- The user of the first record of a token.
unfoldable pub owner_of : List TokenRecord → String → Option String
owner_of [] t = none
owner_of (r ∷ rs) t = if r.token == t then some r.username else owner_of rs t

unfoldable pub owner : TokenFile → String → Option String
owner f t = elim (read_tokens_file f) [ none ↦ none | some l ↦ owner_of l t ]

owner_of-append :
    (new : TokenRecord) (l : List TokenRecord) (t : String)
    → owner_of l new.token ≡ none
    → owner_of (l ++ new ∷ []) t ≡ (if new.token == t then some new.username else owner_of l t)
unfolding owner_of
owner_of-append new [] t h = refl
owner_of-append new (r ∷ rs) t h = ground (
  arith,
  owner_of-append new rs t,
  eq_iff r.token t,
  eq_iff new.token t,
  eq_iff r.token new.token,
)

not_replaced :
    (new : TokenRecord) (l : List TokenRecord)
    → (replace_token new l).1 ≡ false
    → ((replace_token new l).0 ≡ l) × (owner_of l new.token ≡ none)
unfolding owner_of replace_token
not_replaced new [] h = (refl, refl)
not_replaced new (r ∷ rs) h = ground (arith, not_replaced new rs)

owner_of_replaced :
    (new : TokenRecord) (l : List TokenRecord) (t : String)
    → (replace_token new l).1 ≡ true
    → owner_of (replace_token new l).0 t
      ≡ (if new.token == t then some new.username else owner_of l t)
unfolding owner_of replace_token
owner_of_replaced new [] t h = absurd (ground arith)
owner_of_replaced new (r ∷ rs) t h = ground (
  arith,
  owner_of_replaced new rs t,
  not_replaced new rs,
  eq_iff r.token t,
  eq_iff new.token t,
  eq_iff r.token new.token,
)

pub owner_of_dropped :
    (token t : String) (l : List TokenRecord)
    → owner_of (drop_token token l) t ≡ (if token == t then none else owner_of l t)
unfolding owner_of drop_token
owner_of_dropped token t [] = ground arith
owner_of_dropped token t (r ∷ rs) =
    ground
      (arith, owner_of_dropped token t rs, eq_iff r.token token, eq_iff r.token t, eq_iff token t)

-- When `RegisterOrUpdate` with no empty argument returns no error, the device token belongs to the
-- given user, and every other token to whom it belonged before.
pub owner-register_or_update :
    (writes : Writing) (now : ℕ) (db_path username token platform : String) (f : TokenFile)
    (t : String)
    → db_path ≢ ""
    → username ≢ ""
    → token ≢ ""
    → (register_or_update writes now db_path username token platform f).1 ≡ true
    → owner (register_or_update writes now db_path username token platform f).0 t
      ≡ (if token == t then some username else owner f t)
unfolding owner register_or_update read_tokens_file write_tokens_file
owner-register_or_update writes now db_path username token platform f t p u k done =
    elim (Option-cases (read_tokens_file f)) [
      | inl broken ↦ absurd (ground (arith, eq_iff db_path "", eq_iff username "", eq_iff token ""))
      | inr (l, e) ↦
          let new : TokenRecord = record {
            username = username;
            token = token;
            platform = trim_space platform;
            updated = now;
          } in
          elim (Bool-cases (replace_token new l).1) [
            | inl replaced ↦ ground (
              arith,
              owner_of_replaced new l t,
              eq_iff db_path "",
              eq_iff username "",
              eq_iff token "",
            )
            | inr kept ↦ ground (
              arith,
              not_replaced new l,
              owner_of-append new l t,
              eq_iff db_path "",
              eq_iff username "",
              eq_iff token "",
            )
          ]
    ]

-- When `Unregister` with no empty argument returns no error, the device token belongs to nobody, and
-- every other token to whom it belonged before.
pub owner-unregister :
    (writes : Writing) (db_path token : String) (f : TokenFile) (t : String)
    → db_path ≢ ""
    → token ≢ ""
    → (unregister writes db_path token f).1 ≡ true
    → owner (unregister writes db_path token f).0 t ≡ (if token == t then none else owner f t)
unfolding owner unregister read_tokens_file write_tokens_file
owner-unregister writes db_path token f t p k done = elim (Option-cases (read_tokens_file f)) [
  | inl broken ↦ absurd (ground (arith, eq_iff db_path "", eq_iff token ""))
  | inr (l, e) ↦ ground (arith, owner_of_dropped token t l, eq_iff db_path "", eq_iff token "")
]
