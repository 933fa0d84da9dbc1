-- ===== src/Tunnel/Control.antt =====
-- The requests of handler/routes.go that stop and start the tunnel, with the notices they send.
use wireguard_ui.Prelude.{
  ℕ, String, Bool, true, false, ◌==◌, ◌≡◌, refl, Option, none, some, List, [], arith, if◌then◌else◌,
}
use wireguard_ui.Session.Values.{Reply, json, lit, failure}
use wireguard_ui.Push.Broadcast.{Moment, Sent, Pushes, tunnel_running_transition}
use wireguard_ui.Tunnel.{
  is_abs, Faults, Programs, IsWg, Env, Host, run_wg_quick_down, run_wg_quick_up,
  wg_tunnel_is_running,
}
use wireguard_ui.Tunnel.Promote.{next_conf, IsPlaced}
use wireguard_ui.Tunnel.Apply.{Job, apply_wire_guard_config_to_disk}
use wireguard_ui.Tunnel.Apply.Started.{config-run_wg_quick_up, run_wg_quick_up_done}
use wireguard_ui.Tunnel.Apply.Runs.{IsReady, config-run_wg_quick_up-apply}

module _ (w : Programs) where
  pub record Machine : Type 0 where
    pub host : Host w
    pub pushes : Pushes
    pub sent : List Sent

  -- `pushTunnelTransitionAfterWgQuick`; the settings are read again, and `none` is an error.
  unfoldable pub push_tunnel_transition_after_wg_quick :
      (ℕ → Moment) → Option String → Host w → Pushes → Machine
  unfolding tunnel_running_transition wg_tunnel_is_running
  push_tunnel_transition_after_wg_quick at none h p = record { host = h; pushes = p; sent = [] }
  push_tunnel_transition_after_wg_quick at (some conf) h p =
      let (p', sent) = tunnel_running_transition at (wg_tunnel_is_running w h conf) p in
      record { host = h; pushes = p'; sent = sent }

  -- `WireGuardQuickStop`
  unfoldable pub wire_guard_quick_stop :
      Env → (ℕ → Moment) → Option String → Option String → Host w → Pushes → Machine × Reply
  unfolding run_wg_quick_down push_tunnel_transition_after_wg_quick
  wire_guard_quick_stop env at none again h p = (
    record { host = h; pushes = p; sent = [] },
    json 500 false (lit "Cannot read global settings"),
  )
  wire_guard_quick_stop env at (some conf) again h p =
      let (h', done) = run_wg_quick_down w env h conf in
      if done
      then (
        push_tunnel_transition_after_wg_quick at again h' p,
        json 200 true (lit "Interfaz detenida (wg-quick down)"),
      )
      else (record { host = h'; pushes = p; sent = [] }, json 400 false failure)

  -- `WireGuardQuickStart`
  unfoldable pub wire_guard_quick_start :
      Env
      → Faults
      → String
      → (ℕ → Moment)
      → Option String
      → Option String
      → Host w
      → Pushes
      → Machine × Reply
  unfolding run_wg_quick_up push_tunnel_transition_after_wg_quick
  wire_guard_quick_start env f tmp at none again h p = (
    record { host = h; pushes = p; sent = [] },
    json 500 false (lit "Cannot read global settings"),
  )
  wire_guard_quick_start env f tmp at (some conf) again h p =
      let (h', done) = run_wg_quick_up w env f tmp h conf in
      if done
      then (
        push_tunnel_transition_after_wg_quick at again h' p,
        json 200 true (lit "Interfaz iniciada (wg-quick up)"),
      )
      else (record { host = h'; pushes = p; sent = [] }, json 400 false failure)

  host-push_tunnel_transition_after_wg_quick :
      (at : ℕ → Moment) (again : Option String) (h : Host w) (p : Pushes)
      → (push_tunnel_transition_after_wg_quick at again h p).host ≡ h
  unfolding push_tunnel_transition_after_wg_quick
  host-push_tunnel_transition_after_wg_quick at none h p = refl
  host-push_tunnel_transition_after_wg_quick at (some conf) h p = refl

  -- Over programs with the stated laws, let the records be read and rendered to `text`, the pending
  -- file removed where it is to go, and the path of the settings be given, with no space around it
  -- and another than the staging files' paths. Then an application, with or without a restart and
  -- whether it succeeds or not after the text is written, followed by a request to start the tunnel
  -- that is answered with 200, leaves the interface with `text`.
  pub config-wire_guard_quick_start :
      (env : Env)
      → IsWg w
      → (f : Faults) (tmp conf text : String) (at : ℕ → Moment) (again : Option String) (job : Job)
        (restart : Bool) (h : Host w) (p : Pushes)
      → IsReady conf text job
      → IsPlaced conf tmp
      → (wire_guard_quick_start env f tmp at
          (some conf)
          again
          (apply_wire_guard_config_to_disk w env job restart h).0
          p).1
        ≡ json 200 true (lit "Interfaz iniciada (wg-quick up)")
      → w.config
          (wire_guard_quick_start env f tmp at
            (some conf)
            again
            (apply_wire_guard_config_to_disk w env job restart h).0
            p).0.host.net
        ≡ some text
  unfolding wire_guard_quick_start
  config-wire_guard_quick_start env laws f tmp conf text at again job restart h p r placed e =
      let h₁ = (apply_wire_guard_config_to_disk w env job restart h).0 in
      ground (
        arith,
        config-run_wg_quick_up-apply w env laws f tmp conf text job restart h r placed,
        host-push_tunnel_transition_after_wg_quick at again (run_wg_quick_up w env f tmp h₁ conf).0
            p,
      )

  -- Over programs with the stated laws, with the control of `wg-quick` allowed and an absolute path
  -- in the settings, with no space around it and another than the staging file's path: when no
  -- read, write or renaming of a file fails and `wg-quick up` succeeds, a request to start the
  -- tunnel is answered with 200, and the interface has the pending text, or that of the canonical
  -- file when none is pending.
  pub wire_guard_quick_start_succeeds :
      (env : Env)
      → IsWg w
      → (f : Faults) (tmp conf : String) (at : ℕ → Moment) (again : Option String) (h : Host w)
        (p : Pushes)
      → IsPlaced conf tmp
      → (conf == "") ≡ false
      → is_abs conf ≡ true
      → env.allowed ≡ true
      → f.read_fails ≡ false
      → f.write_fails ≡ none
      → f.rename_fails ≡ false
      → ((n : w.Net) (text : Option String) → (w.up n text).1 ≡ true)
      → ((wire_guard_quick_start env f tmp at (some conf) again h p).1
          ≡ json 200 true (lit "Interfaz iniciada (wg-quick up)"))
        × (w.config (wire_guard_quick_start env f tmp at (some conf) again h p).0.host.net
            ≡ next_conf h.files conf)
  unfolding wire_guard_quick_start
  wire_guard_quick_start_succeeds env laws f tmp conf at again h p placed n a allowed r wr m ups =
      let done = run_wg_quick_up_done w env f tmp conf placed h n a allowed r wr m ups in
      ground (
        arith,
        done,
        config-run_wg_quick_up w env f tmp conf placed laws h,
        host-push_tunnel_transition_after_wg_quick at again (run_wg_quick_up w env f tmp h conf).0
            p,
      )
