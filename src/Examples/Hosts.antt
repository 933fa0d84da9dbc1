-- ===== src/Examples/Hosts.antt =====
-- Wake-on-LAN requests over a collection of one host.
use wireguard_ui.Prelude.{String, ◌≡◌, ◌≢◌, refl, none, some, List, [], ◌∷◌, eq_iff, arith}
use wireguard_ui.Store.Table.{table, table-IsDriver, lookup}
use wireguard_ui.WakeOnLan.{Host, HostBody, host, resolve_resource_name, post_host}
use wireguard_ui.WakeOnLan.Hosts.{Moves, post_host-Moves}
use wireguard_ui.WakeOnLan.Hosts.Keyed.{IsResolved, posts, deletes, wakes, run, run-IsResolved}

resolve_colons : resolve_resource_name " 0a:1b:2c:3d:4e:5f\n" ≡ some "0A-1B-2C-3D-4E-5F"
unfolding resolve_resource_name
resolve_colons = refl

resolve_dots : resolve_resource_name "0a1b.2c3d.4e5f" ≡ some "0A1B.2C3D.4E5F"
unfolding resolve_resource_name
resolve_dots = refl

resolve_short : resolve_resource_name "0a:1b:2c:3d:4e" ≡ none
unfolding resolve_resource_name
resolve_short = refl

abbrev desk : Host
desk = record { mac_address = "0a:1b:2c:3d:4e:5f"; name = "desk"; latest_used = some 7 }

abbrev hosts : List (String × Host)
hosts = ("0A-1B-2C-3D-4E-5F", desk) ∷ []

abbrev move : HostBody
move = record {
  name = "lab";
  mac_address = "00:00:00:00:00:01";
  old_mac_address = "0a:1b:2c:3d:4e:5f";
}

abbrev moved : Host
moved = record { mac_address = "00:00:00:00:00:01"; name = "lab"; latest_used = some 7 }

move_is_edit : move.old_mac_address ≢ ""
move_is_edit e = ground (arith, eq_iff move.old_mac_address "")

move_changes_mac : move.old_mac_address ≢ move.mac_address
move_changes_mac e = ground (arith, eq_iff move.old_mac_address move.mac_address)

move_answer : (post_host (table Host) hosts (some move)).1 ≡ host moved
unfolding post_host resolve_resource_name lookup
move_answer = refl

post_host-Moves_example :
    Moves (table Host) hosts (post_host (table Host) hosts (some move)).0 move moved
post_host-Moves_example =
    post_host-Moves (table-IsDriver Host) hosts move moved move_is_edit move_changes_mac move_answer

hosts_resolved :
    (j : String) (h : Host) → lookup hosts j ≡ some h → resolve_resource_name h.mac_address ≡ some j
unfolding lookup
hosts_resolved j h e = ground (arith, resolve_desk, eq_iff "0A-1B-2C-3D-4E-5F" j)
  where
    resolve_desk : resolve_resource_name desk.mac_address ≡ some "0A-1B-2C-3D-4E-5F"
    resolve_desk = unfold resolve_resource_name in refl

run-IsResolved_example : IsResolved (table Host) (
    run
      (table Host)
      hosts
      (posts (some move) ∷ wakes "00:00:00:00:00:01" 9 none ∷ deletes "0a:1b:2c:3d:4e:5f" ∷ []))
run-IsResolved_example =
    run-IsResolved (table-IsDriver Host) hosts
      (posts (some move) ∷ wakes "00:00:00:00:00:01" 9 none ∷ deletes "0a:1b:2c:3d:4e:5f" ∷ [])
      (record { at = hosts_resolved })
