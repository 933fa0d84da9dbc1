-- ===== src/Tunnel/Promote.antt =====
-- The promotion of a pending configuration: what a failure on the way leaves.
use Prim.Native.String.{count}
use Prim.Native.String
use wireguard_ui.Prelude.{
  String, Bool, true, false, not, ◌||◌, ◌≡◌, ◌≢◌, refl, ◌∙◌, sym, ap, Option, none, some, ◌==◌,
  eq_iff, arith, if◌then◌else◌,
}
use mathlib.Core.Path.{subst}
use text.Mathlib.TextLemmas.{length-append}
use wireguard_ui.Text.{trim_space}
use wireguard_ui.Tunnel.{
  Files, Faults, is_abs, wg_conf_pending_path, stage, promote_pending_wg_conf_if_any,
}

-- What the next `wg-quick up` of `RunWgQuickUp` is to read: the pending text, or the canonical file.
unfoldable pub next_conf : Files → String → Option String
next_conf fs conf = elim (fs (wg_conf_pending_path conf)) [ none ↦ fs conf | some text ↦ some text ]

not_longer : (s : String) → s ≢ String.◌++◌ s ".wgui-pending"
not_longer s e = omega (arith, length-append s ".wgui-pending", ap count e)

pub pending_differs : (conf : String) → trim_space conf ≡ conf → conf ≢ wg_conf_pending_path conf
unfolding wg_conf_pending_path
pending_differs conf t e = not_longer conf (e ∙ ap (λ s. String.◌++◌ s ".wgui-pending") t)

-- A path without spaces around it, and a staging file that is another file than the two.
pub record IsPlaced (conf tmp : String) : Type 0 where
  pub trimmed : trim_space conf ≡ conf
  pub apart : tmp ≢ conf
  pub apart_pending : tmp ≢ wg_conf_pending_path conf

-- The promotion from `fs` ends in `r`.
pub record IsSafe (fs : Files) (conf tmp : String) (r : Files × Bool) : Type 0 where
  pub outcome : r.0 conf ≡ (if r.1 then next_conf fs conf else fs conf)
  pub next_kept : next_conf r.0 conf ≡ next_conf fs conf
  pub others_kept : (p : String) → p ≢ conf → p ≢ wg_conf_pending_path conf → p ≢ tmp → r.0 p ≡ fs p

stage-IsSafe :
    (f : Faults) (tmp : String) (fs : Files) (conf text : String)
    → conf ≢ wg_conf_pending_path conf
    → tmp ≢ conf
    → tmp ≢ wg_conf_pending_path conf
    → fs (wg_conf_pending_path conf) ≡ some text
    → IsSafe fs conf tmp (stage f tmp fs conf text)
unfolding stage next_conf
stage-IsSafe f tmp fs conf text d dc dp e = record {
  outcome =
      ground (arith, eq_iff conf conf, eq_iff conf tmp, eq_iff conf (wg_conf_pending_path conf));
  next_kept = ground (
    arith,
    eq_iff conf conf,
    eq_iff conf tmp,
    eq_iff conf (wg_conf_pending_path conf),
    eq_iff (wg_conf_pending_path conf) conf,
    eq_iff (wg_conf_pending_path conf) tmp,
    eq_iff (wg_conf_pending_path conf) (wg_conf_pending_path conf),
  );
  others_kept = λ p nc np nt.
      ground (arith, eq_iff p conf, eq_iff p tmp, eq_iff p (wg_conf_pending_path conf));
}

outcome-unchanged :
    (fs : Files) (conf : String) (done : Bool)
    → (done ≡ true → fs (wg_conf_pending_path conf) ≡ none)
    → fs conf ≡ (if done then next_conf fs conf else fs conf)
unfolding next_conf
outcome-unchanged fs conf true h = ground (arith, h refl)
outcome-unchanged fs conf false h = refl

unchanged-IsSafe :
    (tmp : String) (fs : Files) (conf : String) (done : Bool)
    → (done ≡ true → fs (wg_conf_pending_path conf) ≡ none)
    → IsSafe fs conf tmp (fs, done)
unfolding next_conf
unchanged-IsSafe tmp fs conf done h = record {
  outcome = outcome-unchanged fs conf done h;
  next_kept = refl;
  others_kept = λ p nc np nt. refl;
}

if-IsSafe :
    (tmp : String) (fs : Files) (conf : String) (b : Bool) (r : Files × Bool)
    → IsSafe fs conf tmp r
    → IsSafe fs conf tmp (if b then (fs, false) else r)
if-IsSafe tmp fs conf true r h = unchanged-IsSafe tmp fs conf false (λ x. ground arith)
if-IsSafe tmp fs conf false r h = h

read-IsSafe :
    (f : Faults) (tmp : String) (fs : Files) (conf : String)
    → trim_space conf ≡ conf
    → tmp ≢ conf
    → tmp ≢ wg_conf_pending_path conf
    → (o : Option String) → fs (wg_conf_pending_path conf) ≡ o
    → IsSafe fs conf tmp (elim o [
      | none ↦ (fs, true)
      | some text ↦ if f.read_fails then (fs, false) else stage f tmp fs conf text
    ])
read-IsSafe f tmp fs conf t dc dp none e = unchanged-IsSafe tmp fs conf true (λ _. e)
read-IsSafe f tmp fs conf t dc dp (some text) e =
    if-IsSafe tmp fs conf f.read_fails (stage f tmp fs conf text)
      (stage-IsSafe f tmp fs conf text (pending_differs conf t) dc dp e)

-- Let the path be one without spaces around it, and the staging file another than it and than the
-- pending file. A promotion that succeeds leaves in the canonical file what a start was to read:
-- the pending text where there is one; one that fails at any step leaves the canonical file as it
-- was. Either way what the next start is to read is the same as before, and no file but these three
-- changes.
pub promote_pending_wg_conf_if_any-IsSafe :
    (f : Faults) (tmp : String) (fs : Files) (conf : String)
    → trim_space conf ≡ conf
    → tmp ≢ conf
    → tmp ≢ wg_conf_pending_path conf
    → IsSafe fs conf tmp (promote_pending_wg_conf_if_any f tmp fs conf)
unfolding promote_pending_wg_conf_if_any next_conf
promote_pending_wg_conf_if_any-IsSafe f tmp fs conf t dc dp =
    subst
      (λ path. IsSafe fs conf tmp (
        if path == "" || not (is_abs path)
        then (fs, false)
        else elim (fs (wg_conf_pending_path path)) [
          | none ↦ (fs, true)
          | some text ↦ if f.read_fails then (fs, false) else stage f tmp fs path text
        ]))
      (sym t)
      (if-IsSafe tmp fs conf (conf == "" || not (is_abs conf)) _
        (read-IsSafe f tmp fs conf t dc dp (fs (wg_conf_pending_path conf)) refl))

-- With nothing in the way the promotion succeeds.
pub promote_pending_wg_conf_if_any_done :
    (f : Faults) (tmp : String) (fs : Files) (conf : String)
    → trim_space conf ≡ conf
    → (conf == "") ≡ false
    → is_abs conf ≡ true
    → f.read_fails ≡ false
    → f.write_fails ≡ none
    → f.rename_fails ≡ false
    → (promote_pending_wg_conf_if_any f tmp fs conf).1 ≡ true
unfolding promote_pending_wg_conf_if_any stage
promote_pending_wg_conf_if_any_done f tmp fs conf t n a r w m = ground (arith, t, n, a, r, w, m)
