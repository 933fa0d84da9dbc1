-- ===== src/Push/Broadcast/Sendings.antt =====
-- To whom a broadcast goes, and what becomes of the tokens that the service rejects.
use wireguard_ui.Prelude.{
  ℕ, suc, String, ◌≡◌, ◌≢◌, refl, sym, ◌∙◌, Bool, true, false, not, ◌&&◌, ◌||◌, Option, none, some,
  List, [], ◌∷◌, ◌++◌, ◌==◌, eq_iff, All, All-append, if◌then◌else◌, arith,
}
use wireguard_ui.Text.{trim_space}
use wireguard_ui.Push.{allow}
use wireguard_ui.Push.Tokens.{
  wrote_all, TokenRecord, TokenFile, missing, broken, holds, read_tokens_file, write_tokens_file,
  unregister,
}
use wireguard_ui.Push.Tokens.Owners.{owner, owner_of, owner_of_dropped}
use wireguard_ui.Push.Broadcast.{
  Moment, Sent, SendResult, delivered, rejected, failed, Pushes, message_to, is_skipped,
  unregister_rejected, offer, send_all, send_loaded, broadcast,
}

-- A message of the broadcast, to a token of the file that is neither empty nor the one left out.
pub record IsWanted (title body omit : String) (f : TokenFile) (s : Sent) : Type 0 where
  pub titled : s.message.title ≡ title
  pub with_body : s.message.body ≡ body
  pub urgent : s.message.priority ≡ "high"
  pub accented : s.message.color ≡ "#4FC3F7"
  pub on_channel : s.message.channel_id ≡ "wgui_alerts"
  pub given : s.message.token ≢ ""
  pub not_omitted : s.message.token ≢ omit
  pub registered : owner f s.message.token ≢ none

by_test :
    (Q : Pushes × List Sent → Type 0) (b : Bool) (x y : Pushes × List Sent)
    → (b ≡ true → Q x)
    → (b ≡ false → Q y)
    → Q (if b then x else y)
by_test Q true x y h k = h refl
by_test Q false x y h k = k refl

module _ (title body omit : String) (f : TokenFile) where
  offer-IsWanted :
      (m : Moment) (rec : TokenRecord) (p : Pushes)
      → is_skipped omit rec ≡ false
      → owner f rec.token ≢ none
      → All (IsWanted title body omit f) (offer m title body rec.token p).1
  unfolding offer is_skipped message_to
  offer-IsWanted m rec p n o =
      by_test (λ r. All (IsWanted title body omit f) r.1) (allow p.rate rec.token m.now).1 _ _
        (λ y. (
          record {
            titled = refl;
            with_body = refl;
            urgent = refl;
            accented = refl;
            on_channel = refl;
            given = λ e. ground (arith, eq_iff rec.token "");
            not_omitted =
                λ e. ground (arith, eq_iff rec.token "", eq_iff omit "", eq_iff rec.token omit);
            registered = o;
          },
          tt,
        ))
        (λ y. tt)

  send_all-IsWanted :
      (at : ℕ → Moment) (i : ℕ) (recs : List TokenRecord) (p : Pushes)
      → All (λ (r : TokenRecord). owner f r.token ≢ none) recs
      → All (IsWanted title body omit f) (send_all at i title body omit recs p).1
  unfolding send_all
  send_all-IsWanted at i [] p h = tt
  send_all-IsWanted at i (rec ∷ recs) p h =
      by_test (λ r. All (IsWanted title body omit f) r.1) (is_skipped omit rec) _ _
        (λ y. send_all-IsWanted at (suc i) recs p h.1)
        (λ y.
          All-append (IsWanted title body omit f) _ _ (offer-IsWanted (at i) rec p y h.0)
            (send_all-IsWanted at (suc i) recs (offer (at i) title body rec.token p).0 h.1))

All-mono :
    (P Q : TokenRecord → Type 0) (l : List TokenRecord)
    → ((r : TokenRecord) → P r → Q r)
    → All P l
    → All Q l
All-mono P Q [] h a = tt
All-mono P Q (r ∷ rs) h a = (h r a.0, All-mono P Q rs h a.1)

tokens_owned : (l : List TokenRecord) → All (λ (r : TokenRecord). owner_of l r.token ≢ none) l
unfolding owner_of
tokens_owned [] = tt
tokens_owned (r ∷ rs) = (
  λ e. ground (arith, eq_iff r.token r.token),
  All-mono _ (λ (s : TokenRecord). owner_of (r ∷ rs) s.token ≢ none) rs
      (λ s h e. ground (arith, eq_iff r.token s.token)) (tokens_owned rs),
)

send_loaded-IsWanted :
    (at : ℕ → Moment) (title body omit : String) (p : Pushes) (f : TokenFile)
    → All (IsWanted title body omit f) (send_loaded at title body omit (read_tokens_file f) p).1
unfolding send_loaded read_tokens_file owner
send_loaded-IsWanted at title body omit p missing = tt
send_loaded-IsWanted at title body omit p broken = tt
send_loaded-IsWanted at title body omit p (holds l) =
    send_all-IsWanted title body omit (holds l) at 0 l p (tokens_owned l)

-- Every message of a broadcast has its title and body, high priority and the colour and channel of
-- the alerts, and goes to a registered token of the token file, never to an empty one, nor to the
-- token that is left out when one is.
pub broadcast-IsWanted :
    (at : ℕ → Moment) (title body omit : String) (p : Pushes)
    → All (IsWanted title body (trim_space omit) p.tokens) (broadcast at title body omit p).1
unfolding broadcast
broadcast-IsWanted at title body omit p =
    by_test (λ r. All (IsWanted title body (trim_space omit) p.tokens) r.1)
      (not p.client || p.db_path == "") _ _ (λ y. tt)
      (λ y. send_loaded-IsWanted at title body (trim_space omit) p p.tokens)

-- Whether the service rejected one of the messages to a token.
unfoldable pub is_rejected : List Sent → String → Bool
is_rejected [] token = false
is_rejected (s ∷ ss) token =
    (elim s.result [ rejected ↦ true | _ ↦ false ]) && s.message.token == token
    || is_rejected ss token

is_rejected-append :
    (xs ys : List Sent) (token : String)
    → is_rejected (xs ++ ys) token ≡ (is_rejected xs token || is_rejected ys token)
unfolding is_rejected
is_rejected-append [] ys token = refl
is_rejected-append (s ∷ ss) ys token = ground (arith, is_rejected-append ss ys token)

owner-unregister_rejected :
    (result : SendResult) (path token t : String) (f : TokenFile)
    → path ≢ ""
    → token ≢ ""
    → owner (unregister_rejected result wrote_all path token f) t
      ≡ (if (elim result [ rejected ↦ true | _ ↦ false ]) && token == t then none else owner f t)
unfolding owner unregister_rejected unregister read_tokens_file write_tokens_file
owner-unregister_rejected delivered path token t f p k = refl
owner-unregister_rejected failed path token t f p k = refl
owner-unregister_rejected rejected path token t missing p k =
    ground (arith, owner_of_dropped token t [], eq_iff path "", eq_iff token "")
owner-unregister_rejected rejected path token t broken p k =
    ground (arith, eq_iff path "", eq_iff token "")
owner-unregister_rejected rejected path token t (holds l) p k =
    ground (arith, owner_of_dropped token t l, eq_iff path "", eq_iff token "")

-- What the rejections do to the owner of a token.
abbrev Purges : String → Pushes → Pushes × List Sent → Type 0
Purges t p r = owner r.0.tokens t ≡ (if is_rejected r.1 t then none else owner p.tokens t)

Purges-append :
    (t : String) (p : Pushes) (q r : Pushes × List Sent)
    → Purges t p q
    → Purges t q.0 r
    → Purges t p (r.0, q.1 ++ r.1)
Purges-append t p q r h k = ground (arith, h, k, is_rejected-append q.1 r.1 t)

module _ (at : ℕ → Moment) (writes : (i : ℕ) → (at i).writes ≡ wrote_all)
    (title body omit t : String) where
  offer-Purges :
      (i : ℕ) (rec : TokenRecord) (p : Pushes)
      → p.db_path ≢ ""
      → is_skipped omit rec ≡ false
      → Purges t p (offer (at i) title body rec.token p)
  unfolding offer is_skipped is_rejected
  offer-Purges i rec p d n = ground (
    arith,
    writes i,
    eq_iff rec.token "",
    owner-unregister_rejected ((at i).send (message_to title body rec.token)) p.db_path rec.token t
        p.tokens d,
  )

  db_path-offer :
      (i : ℕ) (token : String) (p : Pushes)
      → (offer (at i) title body token p).0.db_path ≡ p.db_path
  unfolding offer
  db_path-offer i token p = ground arith

  send_all-Purges :
      (i : ℕ) (recs : List TokenRecord) (p : Pushes)
      → p.db_path ≢ ""
      → Purges t p (send_all at i title body omit recs p)
  unfolding send_all is_rejected
  send_all-Purges i [] p d = refl
  send_all-Purges i (rec ∷ recs) p d =
      let q = offer (at i) title body rec.token p in
      by_test (Purges t p) (is_skipped omit rec) _ _ (λ y. send_all-Purges (suc i) recs p d)
        (λ y.
          Purges-append t p q (send_all at (suc i) title body omit recs q.0)
            (offer-Purges i rec p d y)
            (send_all-Purges (suc i) recs q.0 (λ e. d (sym (db_path-offer i rec.token p) ∙ e))))

  send_loaded-Purges :
      (o : Option (List TokenRecord)) (p : Pushes)
      → p.db_path ≢ ""
      → Purges t p (send_loaded at title body omit o p)
  unfolding send_loaded is_rejected
  send_loaded-Purges none p d = refl
  send_loaded-Purges (some recs) p d = send_all-Purges 0 recs p d

-- When every write of the token file succeeds, the tokens that the service rejects as not registered
-- or invalid belong to nobody after a broadcast, and every other token to whom it belonged before.
pub owner-broadcast :
    (at : ℕ → Moment) (title body omit t : String) (p : Pushes)
    → ((i : ℕ) → (at i).writes ≡ wrote_all)
    → owner (broadcast at title body omit p).0.tokens t
      ≡ (if is_rejected (broadcast at title body omit p).1 t then none else owner p.tokens t)
unfolding broadcast is_rejected
owner-broadcast at title body omit t p writes =
    by_test (Purges t p) (not p.client || p.db_path == "") _ _ (λ y. refl)
      (λ y.
        send_loaded-Purges at writes title body (trim_space omit) t (read_tokens_file p.tokens) p
          (λ e. ground (arith, eq_iff p.db_path "")))
