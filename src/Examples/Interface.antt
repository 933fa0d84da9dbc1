-- ===== src/Examples/Interface.antt =====
-- An interface that does what its programs are told, with its configuration in
-- `/etc/wireguard/wg0.conf`.
use wireguard_ui.Prelude.{
  ℕ, String, Bool, true, false, ◌≡◌, refl, Option, none, some, ◌==◌, if◌then◌else◌, eq_iff, arith,
}
use wireguard_ui.Session.Values.{json, lit}
use wireguard_ui.Text.{trim_space}
use wireguard_ui.Text.Split.{split}
use wireguard_ui.Tunnel.{
  Files, write, Faults, Programs, IsWg, Env, Host, is_abs, wg_conf_pending_path,
  promote_pending_wg_conf_if_any, unit_conf, wg_iface_for_conf_path,
}
use wireguard_ui.Push.{new_rate_limiter}
use wireguard_ui.Push.Tokens.{wrote_all, missing}
use wireguard_ui.Push.Broadcast.{Moment, delivered, Pushes}
use wireguard_ui.Tunnel.Control.{wire_guard_quick_start, wire_guard_quick_start_succeeds}
use wireguard_ui.Tunnel.Promote.{next_conf, IsPlaced, IsSafe, promote_pending_wg_conf_if_any-IsSafe}
use wireguard_ui.Tunnel.Apply.{rendered, Job, restarts, apply_server_config}
use wireguard_ui.Tunnel.Apply.Started.{IsRunning}
use wireguard_ui.Tunnel.Apply.Runs.{
  IsReady, config-apply_server_config, apply_server_config-stopped,
}

-- The settings' path is the one that the interface's unit reads.
pub conf-IsUnitOf :
    unit_conf (wg_iface_for_conf_path "/etc/wireguard/wg0.conf") ≡ "/etc/wireguard/wg0.conf"
unfolding trim_space wg_iface_for_conf_path split
conf-IsUnitOf = refl

-- The configuration and whether the interface is up.
abbrev pub State : Type 0
State = Option String × Bool

abbrev pub programs : Programs
programs = record {
  Net = State;
  up = λ n text. ((text, true), true);
  down = λ n text. ((n.0, false), n.1);
  restart_unit = λ n unit fs. (n, false);
  strip = λ text. text;
  sync = λ n text. ((some text, n.1), n.1);
  is_running = λ n. n.1;
  config = λ n. n.0;
  loaded = λ n. n.0;
}

pub programs-IsWg : IsWg programs
programs-IsWg = record {
  config-up = λ n text _. refl;
  config-restart_unit = λ n iface fs e. ground arith;
  loaded-sync = λ n text e. refl;
}

abbrev pub env : Env
env = record {
  allowed = true;
  pending_when_stopped = true;
  linux = true;
  via_systemd = true;
  syncs_after_write = true;
}

abbrev pub sound : Faults
sound = record {
  read_fails = false;
  write_fails = none;
  rename_fails = false;
  cleanup_fails = false;
  remove_fails = false;
  temp_fails = false;
}

abbrev pub conf : String
conf = "/etc/wireguard/wg0.conf"

abbrev pub tmp : String
tmp = "/etc/wireguard/.wgui-wg-merge-7.tmp"

abbrev job : Job
job = record {
  conf = some conf;
  records_read = true;
  text = rendered "[Interface] # new";
  hashes_saved = true;
  pending_remove_fails = false;
  faults = sound;
  tmp = tmp;
}

abbrev pub files : Files
files p = if p == conf then some "[Interface] # old" else none

abbrev pending_files : Files
pending_files = write files "/etc/wireguard/wg0.conf.wgui-pending" (some "[Interface] # new")

abbrev pub stopped : Host programs
stopped = record { files = files; net = (some "[Interface] # old", false) }

pub conf-IsPlaced : IsPlaced conf tmp
unfolding trim_space wg_conf_pending_path
conf-IsPlaced = record {
  trimmed = refl;
  apart = λ e. ground (arith, eq_iff tmp conf);
  apart_pending = λ e. ground (arith, eq_iff tmp "/etc/wireguard/wg0.conf.wgui-pending");
}

job-IsReady : IsReady conf "[Interface] # new" job
job-IsReady = record {
  placed = conf-IsPlaced;
  set = refl;
  given = refl;
  read = refl;
  renders = refl;
  removes = refl;
}

promote_pending_wg_conf_if_any-IsSafe_example :
    IsSafe pending_files conf tmp (promote_pending_wg_conf_if_any sound tmp pending_files conf)
promote_pending_wg_conf_if_any-IsSafe_example =
    promote_pending_wg_conf_if_any-IsSafe sound tmp pending_files conf conf-IsPlaced.trimmed
      conf-IsPlaced.apart conf-IsPlaced.apart_pending

abbrev quiet : Pushes
quiet = record {
  client = false;
  db_path = "";
  rate = new_rate_limiter 3;
  tokens = missing;
  last_tunnel_was_up = none;
}

abbrev moments : ℕ → Moment
moments i = record { now = i; send = λ m. delivered; writes = wrote_all }

config-apply_server_config_example :
    IsRunning programs
      (some "[Interface] # new")
      (apply_server_config programs env job (restarts (some true)) stopped).0.net
unfolding apply_server_config trim_space wg_conf_pending_path
config-apply_server_config_example =
    config-apply_server_config programs env programs-IsWg conf "[Interface] # new" job stopped refl
      (λ e. conf-IsUnitOf) job-IsReady refl

apply_server_config-stopped_example :
    ((apply_server_config programs env job (restarts none) stopped).1
      ≡ json 200 true (lit "Applied server config successfully"))
    × ((apply_server_config programs env job (restarts none) stopped).0.net ≡ stopped.net)
    × ((apply_server_config programs env job (restarts none) stopped).0.files conf ≡ files conf)
    × ((apply_server_config programs env job (restarts none) stopped).0.files
          (wg_conf_pending_path conf)
        ≡ some "[Interface] # new")
unfolding is_abs
apply_server_config-stopped_example =
    apply_server_config-stopped programs env conf "[Interface] # new" job stopped refl refl refl
      refl refl job-IsReady

wire_guard_quick_start_succeeds_example :
    ((wire_guard_quick_start programs env sound tmp moments
        (some conf)
        (some conf)
        (record stopped { files = pending_files })
        quiet).1
      ≡ json 200 true (lit "Interfaz iniciada (wg-quick up)"))
    × (programs.config
          (wire_guard_quick_start programs env sound tmp moments
            (some conf)
            (some conf)
            (record stopped { files = pending_files })
            quiet).0.host.net
        ≡ next_conf pending_files conf)
unfolding is_abs
wire_guard_quick_start_succeeds_example =
    wire_guard_quick_start_succeeds programs env programs-IsWg sound tmp conf moments (some conf)
      (record stopped { files = pending_files }) quiet conf-IsPlaced refl refl refl refl refl refl
      (λ n text. refl)
