-- ===== src/Tunnel.antt =====
-- The configuration file of the interface and `wg-quick`: util/wg_quick.go and util/wg_synconf.go.
pub mod Promote
pub mod Apply
pub mod Control
use Prim.Native.String.{[], ◌∷◌}
use Prim.Native.Char.{code}
use Prim.Native.String
use wireguard_ui.Prelude.{
  ℕ, String, Bool, true, false, not, ◌&&◌, ◌||◌, ◌≡◌, List, Option, none, some, ◌==◌, nat_eq,
  if◌then◌else◌,
}
use wireguard_ui.Prelude
use wireguard_ui.Text.{trim_space}
use wireguard_ui.Text.Split.{split}

-- The files of the host, by path.
abbrev pub Files : Type 0
Files = String → Option String

abbrev pub write : Files → String → Option String → Files
write fs path content p = if p == path then content else fs p

-- What the system calls come to: whether they fail, and what a write that fails leaves behind.
pub record Faults : Type 0 where
  pub read_fails : Bool
  pub write_fails : Option (Option String)
  pub rename_fails : Bool
  pub cleanup_fails : Bool
  pub remove_fails : Bool
  pub temp_fails : Bool

-- `filepath.IsAbs`
unfoldable pub is_abs : String → Bool
is_abs [] = false
is_abs (c ∷ s) = nat_eq (code c) b'/'

abbrev pub wg_conf_pending_suffix : String
wg_conf_pending_suffix = ".wgui-pending"

unfoldable pub wg_conf_pending_path : String → String
wg_conf_pending_path canonical = String.◌++◌ (trim_space canonical) wg_conf_pending_suffix

-- `os.Remove` of which the error is ignored.
abbrev pub remove_quietly : Bool → Files → String → Files
remove_quietly fails fs path = if fails then fs else write fs path none

-- `RemoveWgConfPending`
unfoldable pub remove_wg_conf_pending : Bool → Files → String → Files
remove_wg_conf_pending fails fs canonical = remove_quietly fails fs (wg_conf_pending_path canonical)

-- The staging of the pending text, by a file that takes the place of the canonical one.
unfoldable pub stage : Faults → String → Files → String → String → Files × Bool
stage f tmp fs canonical text = elim f.write_fails [
  | some left ↦ (write fs tmp left, false)
  | none ↦
      let fs₁ = write fs tmp (some text) in
      if f.rename_fails then (remove_quietly f.cleanup_fails fs₁ tmp, false) else (
        remove_quietly f.remove_fails (write (write fs₁ canonical (some text)) tmp none)
            (wg_conf_pending_path canonical),
        true,
      )
]

-- `PromotePendingWgConfIfAny`; `tmp` is the path of the staging file, beside the canonical one, with
-- the process id in its name. The result tells that there was no error.
unfoldable pub promote_pending_wg_conf_if_any : Faults → String → Files → String → Files × Bool
unfolding stage is_abs
promote_pending_wg_conf_if_any f tmp fs canonical =
    let path = trim_space canonical in
    if path == "" || not (is_abs path) then (fs, false) else elim (fs (wg_conf_pending_path path)) [
      | none ↦ (fs, true)
      | some text ↦ if f.read_fails then (fs, false) else stage f tmp fs path text
    ]

-- `filepath.Base`: the last part of the path that is not empty.
last_part : String → List String → String
last_part found Prelude.[] = found
last_part found (Prelude.◌∷◌ part parts) = last_part (if part == "" then found else part) parts

unfoldable pub base : String → String
unfolding last_part split
base path = if path == "" then "." else last_part "/" (split b'/' path)

-- `strings.TrimSuffix`
unfoldable pub trim_suffix : String → String → String
trim_suffix [] suffix = []
trim_suffix (c ∷ s) suffix =
    let rest = trim_suffix s suffix in if (c ∷ s) == suffix then [] else c ∷ rest

-- `WireGuardIfaceBasename` of util/server_ui.go
unfoldable pub wire_guard_iface_basename : String → String
unfolding base trim_suffix
wire_guard_iface_basename conf =
    let b = trim_suffix (base (trim_space conf)) ".conf" in
    if b == "." || b == "/" || b == "" then "wg0" else b

-- `wgIfaceForConfPath`
unfoldable pub wg_iface_for_conf_path : String → String
unfolding wire_guard_iface_basename
wg_iface_for_conf_path conf =
    let iface = wire_guard_iface_basename (trim_space conf) in
    if trim_space iface == "" then "wg0" else iface

-- `wgQuickSystemdUnitName`
unfoldable pub wg_quick_systemd_unit_name : String → String
unfolding wire_guard_iface_basename
wg_quick_systemd_unit_name conf =
    let iface = wire_guard_iface_basename conf in
    String.◌++◌ "wg-quick@" (if trim_space iface == "" then "wg0" else iface)

-- The file that the unit `wg-quick@<interface>` reads, as wg-quick(8) has it.
abbrev pub unit_conf : String → String
unit_conf iface = String.◌++◌ "/etc/wireguard/" (String.◌++◌ iface ".conf")

-- The interface as the programs `wg-quick`, `systemctl` and `wg` change it: bringing it up and down
-- with the text of the configuration file, restarting a unit by its name, which reads a file of its
-- own, and loading a text in the format of wg(8), such as `wg-quick strip` makes of a configuration.
pub record Programs : Type 1 where
  pub Net : Type 0
  pub up : Net → Option String → Net × Bool
  pub down : Net → Option String → Net × Bool
  pub restart_unit : Net → String → Files → Net × Bool
  pub strip : Option String → Option String
  pub sync : Net → String → Net × Bool
  pub is_running : Net → Bool
  -- the configuration that `wg-quick` last brought the interface up with, and the keys, port and peers
  -- that `wg` last loaded on it
  pub config : Net → Option String
  pub loaded : Net → Option String

-- The documented behaviour of wg-quick(8), of its unit and of wg(8): `wg-quick up` that succeeds
-- brings the interface up with the file it is given, the unit's restart with the file
-- `/etc/wireguard/<interface>.conf`, and `wg syncconf` loads the text it is given.
pub record IsWg (w : Programs) : Type 0 where
  pub config-up :
      (n : w.Net) (text : Option String) → (w.up n text).1 ≡ true → w.config (w.up n text).0 ≡ text
  pub config-restart_unit :
      (n : w.Net) (iface : String) (fs : Files)
      → (w.restart_unit n (String.◌++◌ "wg-quick@" iface) fs).1 ≡ true
      → w.config (w.restart_unit n (String.◌++◌ "wg-quick@" iface) fs).0 ≡ fs (unit_conf iface)
  pub loaded-sync :
      (n : w.Net) (text : String)
      → (w.sync n text).1 ≡ true
      → w.loaded (w.sync n text).0 ≡ some text

-- The environment: `WGUI_ALLOW_WG_QUICK`, `WgConfPendingWhenTunnelStopped`, the operating system,
-- whether a unit of `systemd` is to be restarted, and `ShouldApplySyncconfAfterWrite`.
pub record Env : Type 0 where
  pub allowed : Bool
  pub pending_when_stopped : Bool
  pub linux : Bool
  pub via_systemd : Bool
  pub syncs_after_write : Bool

module _ (w : Programs) where
  open w use {Net, up, down, restart_unit, strip, sync, is_running}

  pub record Host : Type 0 where
    pub files : Files
    pub net : Net

  -- `ensureWgQuickAllowed`
  unfoldable pub ensure_wg_quick_allowed : Env → String → Option String
  ensure_wg_quick_allowed env conf =
      let path = trim_space conf in
      if path == "" || not (is_abs path) || not env.allowed then none else some path

  -- `wg-quick down` of which the result is ignored.
  abbrev pub down_best_effort : Host → String → Host
  down_best_effort h path = record h { net = (down h.net (h.files path)).0 }

  -- `RunWgQuickDown`
  unfoldable pub run_wg_quick_down : Env → Host → String → Host × Bool
  unfolding ensure_wg_quick_allowed
  run_wg_quick_down env h conf = elim (ensure_wg_quick_allowed env conf) [
    | none ↦ (h, false)
    | some path ↦ let (net, done) = down h.net (h.files path) in (record h { net = net }, done)
  ]

  -- `wg-quick up`, twice if need be, each time after a `down`.
  unfoldable pub up_twice : Host → String → Host × Bool
  up_twice h path =
      let h₁ = down_best_effort h path in
      let (net, done) = up h₁.net (h₁.files path) in
      if done
      then (record h₁ { net = net }, true)
      else (let h₂ = down_best_effort (record h₁ { net = net }) path in
          let (net₂, done₂) = up h₂.net (h₂.files path) in (record h₂ { net = net₂ }, done₂))

  -- `RunWgQuickUp`
  unfoldable pub run_wg_quick_up : Env → Faults → String → Host → String → Host × Bool
  unfolding ensure_wg_quick_allowed promote_pending_wg_conf_if_any up_twice
  run_wg_quick_up env f tmp h conf = elim (ensure_wg_quick_allowed env conf) [
    | none ↦ (h, false)
    | some path ↦
        let (files, promoted) = promote_pending_wg_conf_if_any f tmp h.files path in
        if promoted
        then up_twice (record h { files = files }) path
        else (record h { files = files }, false)
  ]

  -- The end of `RestartWgQuick`; the second `promote` finds the pending file gone or as it was.
  unfoldable pub down_and_up : Env → Faults → String → Host → String → Host × Bool
  unfolding run_wg_quick_down run_wg_quick_up
  down_and_up env f tmp h path = run_wg_quick_up env f tmp (run_wg_quick_down env h path).0 path

  -- `RestartWgQuick`
  unfoldable pub restart_wg_quick : Env → Faults → String → Host → String → Host × Bool
  unfolding ensure_wg_quick_allowed promote_pending_wg_conf_if_any down_and_up
      wg_quick_systemd_unit_name
  restart_wg_quick env f tmp h conf = elim (ensure_wg_quick_allowed env conf) [
    | none ↦ (h, false)
    | some path ↦
        let (files, promoted) = promote_pending_wg_conf_if_any f tmp h.files path in
        let h₁ : Host = record h { files = files } in
        if not promoted
        then (h₁, false)
        else if not env.via_systemd
        then down_and_up env f tmp h₁ path
        else (let (net, done) = restart_unit h₁.net (wg_quick_systemd_unit_name path) h₁.files in
            let h₂ : Host = record h₁ { net = net } in
            if done then (h₂, true) else down_and_up env f tmp h₂ path)
  ]

  -- `runWgSyncConfFromSavedFile`; the temporary file, of a name that no file has, may not be
  -- created or written, and is gone again at the end.
  unfoldable pub run_wg_sync_conf_from_saved_file : Faults → Host → String → Host × Bool
  run_wg_sync_conf_from_saved_file f h conf =
      let path = trim_space conf in
      if path == "" || not (is_abs path) then (h, false) else elim (strip (h.files path)) [
        | none ↦ (h, false)
        | some stripped ↦
            let (net, done) = sync h.net stripped in
            if f.temp_fails then (h, false) else (record h { net = net }, done)
      ]

  -- `WgSyncConfFromSavedFile` and `WgForceSyncConfFromSavedFile`
  unfoldable pub wg_sync_conf_from_saved_file : Env → Faults → Host → String → Host × Bool
  unfolding run_wg_sync_conf_from_saved_file
  wg_sync_conf_from_saved_file env f h conf =
      if not env.syncs_after_write || not env.linux
      then (h, true)
      else run_wg_sync_conf_from_saved_file f h conf

  unfoldable pub wg_force_sync_conf_from_saved_file : Env → Faults → Host → String → Host × Bool
  unfolding run_wg_sync_conf_from_saved_file
  wg_force_sync_conf_from_saved_file env f h conf =
      if not env.linux then (h, true) else run_wg_sync_conf_from_saved_file f h conf

  -- `WgTunnelIsRunning`
  unfoldable pub wg_tunnel_is_running : Host → String → Bool
  wg_tunnel_is_running h conf = if trim_space conf == "" then false else is_running h.net
