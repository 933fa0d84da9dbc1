-- ===== src/Tunnel/Apply/Started.antt =====
-- What the interface runs with after an application and a start.
use Prim.Native.String
use wireguard_ui.Prelude.{
  String, Bool, true, false, ◌==◌, ◌≡◌, ◌⊎◌, inl, inr, sym, ◌∙◌, if◌then◌else◌, ap, Option, none,
  some, Option-cases, Bool-cases, arith,
}
use wireguard_ui.Text.{trim_space}
use wireguard_ui.Tunnel.{
  Files, is_abs, Faults, Programs, IsWg, Env, Host, wg_conf_pending_path,
  promote_pending_wg_conf_if_any, ensure_wg_quick_allowed, up_twice, down_and_up, run_wg_quick_up,
  run_wg_quick_down, restart_wg_quick, run_wg_sync_conf_from_saved_file,
  wg_sync_conf_from_saved_file, wg_force_sync_conf_from_saved_file, unit_conf,
  wg_iface_for_conf_path, wg_quick_systemd_unit_name, wire_guard_iface_basename,
}
use wireguard_ui.Tunnel.Promote.{
  next_conf, IsPlaced, promote_pending_wg_conf_if_any-IsSafe, promote_pending_wg_conf_if_any_done,
}
use wireguard_ui.Tunnel.Apply.{apply_kernel_after_writing_wg_conf}

-- The interface runs a text: `wg-quick` last brought it up with the text, or `wg` last loaded on it
-- what `wg-quick strip` makes of the text.
pub IsRunning : (w : Programs) → Option String → w.Net → Type 0
IsRunning w text n =
    (w.config n ≡ text)
    ⊎ ((stripped : String) × (w.strip text ≡ some stripped) × (w.loaded n ≡ some stripped))

module _ (w : Programs) where
  files-up_twice : (h : Host w) (path : String) → (up_twice w h path).0.files ≡ h.files
  unfolding up_twice
  files-up_twice h path = ground arith

  config-up_twice :
      IsWg w
      → (h : Host w) (path : String) → (up_twice w h path).1 ≡ true
      → w.config (up_twice w h path).0.net ≡ h.files path
  unfolding up_twice
  config-up_twice laws h path e =
      let text = h.files path in
      let n₁ = (w.down h.net text).0 in
      let n₂ = (w.down (w.up n₁ text).0 text).0 in
      ground (arith, laws.config-up n₁ text, laws.config-up n₂ text)

  files-run_wg_quick_down :
      (env : Env) (h : Host w) (conf : String) → (run_wg_quick_down w env h conf).0.files ≡ h.files
  unfolding run_wg_quick_down
  files-run_wg_quick_down env h conf = ground arith

  files-run_wg_sync_conf_from_saved_file :
      (f : Faults) (h : Host w) (conf : String)
      → (run_wg_sync_conf_from_saved_file w f h conf).0.files ≡ h.files
  unfolding run_wg_sync_conf_from_saved_file
  files-run_wg_sync_conf_from_saved_file f h conf = ground arith

  -- What a successful `wg syncconf` loads is what `wg-quick strip` makes of the file.
  pub loaded-run_wg_sync_conf_from_saved_file :
      IsWg w
      → (f : Faults) (h : Host w) (conf : String) → trim_space conf ≡ conf
      → (run_wg_sync_conf_from_saved_file w f h conf).1 ≡ true
      → (stripped : String) × (w.strip (h.files conf) ≡ some stripped)
        × (w.loaded (run_wg_sync_conf_from_saved_file w f h conf).0.net ≡ some stripped)
  unfolding run_wg_sync_conf_from_saved_file
  loaded-run_wg_sync_conf_from_saved_file laws f h conf t done =
      elim (Option-cases (w.strip (h.files conf))) [
        | inl e ↦ absurd (ground (arith, t))
        | inr (stripped, e) ↦ (stripped, e, ground (arith, t, laws.loaded-sync h.net stripped))
      ]

  ensure-trimmed :
      (env : Env) (conf : String)
      → trim_space conf ≡ conf
      → (ensure_wg_quick_allowed w env conf ≡ none)
        ⊎ (ensure_wg_quick_allowed w env conf ≡ some conf)
  unfolding ensure_wg_quick_allowed
  ensure-trimmed env conf t = ground (arith, t)

  module _ (env : Env) (f : Faults) (tmp conf : String) (at : IsPlaced conf tmp) where
    next_kept :
        (fs : Files)
        → next_conf (promote_pending_wg_conf_if_any f tmp fs conf).0 conf ≡ next_conf fs conf
    next_kept fs =
        (promote_pending_wg_conf_if_any-IsSafe f tmp fs conf at.trimmed at.apart
          at.apart_pending).next_kept

    next_conf-run_wg_quick_up :
        (h : Host w)
        → next_conf (run_wg_quick_up w env f tmp h conf).0.files conf ≡ next_conf h.files conf
    unfolding run_wg_quick_up
    next_conf-run_wg_quick_up h =
        let files = (promote_pending_wg_conf_if_any f tmp h.files conf).0 in
        ground (
          arith,
          ensure-trimmed env conf at.trimmed,
          next_kept h.files,
          files-up_twice (record h { files = files }) conf,
        )

    next_conf-down_and_up :
        (h : Host w)
        → next_conf (down_and_up w env f tmp h conf).0.files conf ≡ next_conf h.files conf
    unfolding down_and_up
    next_conf-down_and_up h = ground (
      arith,
      next_conf-run_wg_quick_up (run_wg_quick_down w env h conf).0,
      files-run_wg_quick_down env h conf,
    )

    next_conf-restart_wg_quick :
        (h : Host w)
        → next_conf (restart_wg_quick w env f tmp h conf).0.files conf ≡ next_conf h.files conf
    unfolding restart_wg_quick
    next_conf-restart_wg_quick h =
        let files = (promote_pending_wg_conf_if_any f tmp h.files conf).0 in
        ground (
          arith,
          ensure-trimmed env conf at.trimmed,
          next_kept h.files,
          next_conf-down_and_up (record h { files = files }),
          next_conf-down_and_up (record h {
            files = files;
            net = (w.restart_unit h.net (wg_quick_systemd_unit_name conf) files).0;
          }),
        )

    pub next_conf-apply_kernel :
        (h : Host w) (restart : Bool)
        → next_conf (apply_kernel_after_writing_wg_conf w env f tmp h conf restart).0.files conf
          ≡ next_conf h.files conf
    unfolding apply_kernel_after_writing_wg_conf wg_sync_conf_from_saved_file
        wg_force_sync_conf_from_saved_file
    next_conf-apply_kernel h restart =
        let h₁ = (restart_wg_quick w env f tmp h conf).0 in
        ground (
          arith,
          next_conf-restart_wg_quick h,
          files-run_wg_sync_conf_from_saved_file f h₁ conf,
          files-run_wg_sync_conf_from_saved_file f h conf,
        )

    -- A successful `RunWgQuickUp`.
    pub config-run_wg_quick_up :
        IsWg w
        → (h : Host w) → (run_wg_quick_up w env f tmp h conf).1 ≡ true
        → w.config (run_wg_quick_up w env f tmp h conf).0.net ≡ next_conf h.files conf
    unfolding run_wg_quick_up
    config-run_wg_quick_up laws h e =
        let r = promote_pending_wg_conf_if_any f tmp h.files conf in
        ground (
          arith,
          ensure-trimmed env conf at.trimmed,
          (promote_pending_wg_conf_if_any-IsSafe f tmp h.files conf at.trimmed at.apart
              at.apart_pending).outcome,
          config-up_twice laws (record h { files = r.0 }) conf,
        )

    -- With no pending file.
    promote_none :
        (fs : Files)
        → fs (wg_conf_pending_path conf) ≡ none
        → (promote_pending_wg_conf_if_any f tmp fs conf).0 ≡ fs
    unfolding promote_pending_wg_conf_if_any
    promote_none fs e = let t = at.trimmed in ground (arith)

    unit_of_iface :
        wg_quick_systemd_unit_name conf ≡ String.◌++◌ "wg-quick@" (wg_iface_for_conf_path conf)
    unfolding wg_quick_systemd_unit_name wg_iface_for_conf_path
    unit_of_iface =
        ap
          (λ (s : String). String.◌++◌ "wg-quick@" (
            let iface = wire_guard_iface_basename s in
            if trim_space iface == "" then "wg0" else iface))
          (sym at.trimmed)

    -- A unit that is restarted reads the file of the settings.
    abbrev pub IsUnitOf : Type 0
    IsUnitOf = env.via_systemd ≡ true → unit_conf (wg_iface_for_conf_path conf) ≡ conf

    config-restart_unit-unit :
        IsWg w
        → IsUnitOf
        → (n : w.Net) (fs : Files) → env.via_systemd ≡ true
        → (w.restart_unit n (wg_quick_systemd_unit_name conf) fs).1 ≡ true
        → w.config (w.restart_unit n (wg_quick_systemd_unit_name conf) fs).0 ≡ fs conf
    config-restart_unit-unit laws unit n fs v done =
        let iface = wg_iface_for_conf_path conf in
        ground (arith, unit_of_iface, unit v, laws.config-restart_unit n iface fs)

    config-restart_wg_quick :
        IsWg w
        → IsUnitOf
        → (h : Host w) → (restart_wg_quick w env f tmp h conf).1 ≡ true
        → w.config (restart_wg_quick w env f tmp h conf).0.net ≡ next_conf h.files conf
    unfolding restart_wg_quick down_and_up
    config-restart_wg_quick laws unit h e =
        let r = promote_pending_wg_conf_if_any f tmp h.files conf in
        let h₁ : Host w = record h { files = r.0 } in
        let h₂ : Host w = record h₁ {
          net = (w.restart_unit h.net (wg_quick_systemd_unit_name conf) r.0).0;
        } in
        ground (
          arith,
          ensure-trimmed env conf at.trimmed,
          (promote_pending_wg_conf_if_any-IsSafe f tmp h.files conf at.trimmed at.apart
              at.apart_pending).outcome,
          next_kept h.files,
          config-restart_unit-unit laws unit h.net r.0,
          files-run_wg_quick_down env h₁ conf,
          files-run_wg_quick_down env h₂ conf,
          config-run_wg_quick_up laws (run_wg_quick_down w env h₁ conf).0,
          config-run_wg_quick_up laws (run_wg_quick_down w env h₂ conf).0,
        )

    files-run_wg_quick_up :
        (h : Host w)
        → h.files (wg_conf_pending_path conf) ≡ none
        → (run_wg_quick_up w env f tmp h conf).0.files ≡ h.files
    unfolding run_wg_quick_up
    files-run_wg_quick_up h e =
        let files = (promote_pending_wg_conf_if_any f tmp h.files conf).0 in
        ground (
          arith,
          ensure-trimmed env conf at.trimmed,
          promote_none h.files e,
          files-up_twice (record h { files = files }) conf,
        )

    files-down_and_up :
        (h : Host w)
        → h.files (wg_conf_pending_path conf) ≡ none
        → (down_and_up w env f tmp h conf).0.files ≡ h.files
    unfolding down_and_up
    files-down_and_up h e =
        let down = files-run_wg_quick_down env h conf in
        files-run_wg_quick_up (run_wg_quick_down w env h conf).0
          (ap (λ (fs : Files). fs (wg_conf_pending_path conf)) down ∙ e)
        ∙ down

    files-restart_wg_quick :
        (h : Host w)
        → h.files (wg_conf_pending_path conf) ≡ none
        → (restart_wg_quick w env f tmp h conf).0.files ≡ h.files
    unfolding restart_wg_quick
    files-restart_wg_quick h e =
        let files = (promote_pending_wg_conf_if_any f tmp h.files conf).0 in
        let same = promote_none h.files e in
        let gone = ap (λ (fs : Files). fs (wg_conf_pending_path conf)) same ∙ e in
        ground (
          arith,
          ensure-trimmed env conf at.trimmed,
          same,
          files-down_and_up (record h { files = files }) gone,
          files-down_and_up
              (record h {
                files = files;
                net = (w.restart_unit h.net (wg_quick_systemd_unit_name conf) files).0;
              })
              gone,
        )

    -- The restart of an application, with the configuration in place: `wg syncconf` stands in for it.
    pub config-apply_kernel :
        IsWg w
        → IsUnitOf
        → env.linux ≡ true
        → (h : Host w) → h.files (wg_conf_pending_path conf) ≡ none
        → (apply_kernel_after_writing_wg_conf w env f tmp h conf true).1 ≡ true
        → IsRunning w
            (h.files conf)
            (apply_kernel_after_writing_wg_conf w env f tmp h conf true).0.net
    unfolding apply_kernel_after_writing_wg_conf wg_force_sync_conf_from_saved_file next_conf
        IsRunning
    config-apply_kernel laws unit l h e done =
        let h₁ = (restart_wg_quick w env f tmp h conf).0 in
        let same = ap (λ (fs : Files). fs conf) (files-restart_wg_quick h e) in
        elim (Bool-cases (restart_wg_quick w env f tmp h conf).1) [
          | inl up ↦ inl (ground (arith, config-restart_wg_quick laws unit h up))
          | inr failed ↦
              let (stripped, s, k) =
                loaded-run_wg_sync_conf_from_saved_file laws f h₁ conf at.trimmed (ground arith) in
              inr (stripped, rw same at s, ground (arith, k))
        ]

    -- A start succeeds where it is allowed, no call of the file system fails and `wg-quick up`
    -- succeeds.
    pub run_wg_quick_up_done :
        (h : Host w)
        → (conf == "") ≡ false
        → is_abs conf ≡ true
        → env.allowed ≡ true
        → f.read_fails ≡ false
        → f.write_fails ≡ none
        → f.rename_fails ≡ false
        → ((n : w.Net) (text : Option String) → (w.up n text).1 ≡ true)
        → (run_wg_quick_up w env f tmp h conf).1 ≡ true
    unfolding run_wg_quick_up ensure_wg_quick_allowed up_twice
    run_wg_quick_up_done h n a allowed r wr m ups =
        let fs = (promote_pending_wg_conf_if_any f tmp h.files conf).0 in
        let t = at.trimmed in
        ground (
          arith,
          t,
          promote_pending_wg_conf_if_any_done f tmp h.files conf t n a r wr m,
          ups (w.down h.net (fs conf)).0 (fs conf),
        )
