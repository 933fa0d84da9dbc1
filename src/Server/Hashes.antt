-- ===== src/Server/Hashes.antt =====
-- What saving the records' hashes leaves of the records and of the pending state.
use wireguard_ui.Prelude.{String, true, false, ◌≡◌, some, ◌==◌, eq_refl, if◌then◌else◌, arith}
use wireguard_ui.Store.{Driver, IsDriver}
use wireguard_ui.Server.{
  ServerRecord, ServerDigest, save_record, get_current_hash, hashes_changed, update_hashes,
  get_global_settings, get_server, hashes,
}

module _ {D : Driver ServerRecord} (laws : IsDriver D) where
  pub read-save_record :
      (name : String) (r : ServerRecord) (d : D.Dir) (j : String)
      → (save_record D name r d).1 ≡ true
      → D.read (save_record D name r d).0 j ≡ (if name == j then some r else D.read d j)
  unfolding save_record
  read-save_record name r d j h = ground (arith, laws.read-write d name r j)

  module _ (digest : ServerDigest) (clients : String) (d : D.Dir)
      (done : (update_hashes D digest clients d).1 ≡ true) where
    read-update_hashes :
        (j : String)
        → D.read (update_hashes D digest clients d).0 j ≡ (
            if "hashes" == j
            then some (hashes (get_current_hash D digest clients d))
            else D.read d j)
    unfolding update_hashes
    read-update_hashes j = read-save_record "hashes" _ d j done

    pub get_global_settings-update_hashes :
        get_global_settings D (update_hashes D digest clients d).0 ≡ get_global_settings D d
    unfolding get_global_settings
    get_global_settings-update_hashes = rw (read-update_hashes "global_settings")

    pub get_server-update_hashes :
        get_server D (update_hashes D digest clients d).0 ≡ get_server D d
    unfolding get_server
    get_server-update_hashes =
        ground (arith, read-update_hashes "interfaces", read-update_hashes "keypair")

    pub hashes_changed-update_hashes :
        hashes_changed D digest clients (update_hashes D digest clients d).0 ≡ false
    unfolding hashes_changed get_current_hash
    hashes_changed-update_hashes = ground (
      arith,
      read-update_hashes "hashes",
      read-update_hashes "global_settings",
      read-update_hashes "interfaces",
      read-update_hashes "keypair",
      eq_refl clients,
      eq_refl (digest (D.read d "global_settings") (D.read d "interfaces") (D.read d "keypair")),
    )
