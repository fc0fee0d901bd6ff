-- ===== src/Netconf/Static/Effects.antt =====
-- What `setStaticConfig` does to the files.
use platform_configure.Prelude.{
  Bytes, ◌≡◌, ◌≢◌, refl, bytes_eq, bytes_eq_refl, Option, none, some, false, arith,
}
use platform_configure.Netconf.Checked.{Checked, valid, invalid}
use platform_configure.Netconf.Interface.{InterfaceData, System}
use platform_configure.Netconf.FileSystem.{IsFileSystem}
use platform_configure.Netconf.Static.{
  StaticData, unit_file, unit_path, unit_mode, check_addresses, remove_old, restart, install,
  set_static_config,
}
use platform_configure.Netconf.Static.Checks.{IsStatic, check_addresses_ok}

module _ {S : Type 0} (sys : System S) (iface address netmask gateway dns : Bytes) (s : S) where
  -- If the tests on the addresses fail, an error is returned and nothing is changed.
  pub set_static_config_invalid :
      {e : Bytes}
      → check_addresses (sys.nl.get_mac_address iface s).0 address netmask gateway dns ≡ invalid e
      → ((set_static_config sys iface address netmask gateway dns s).1 ≡ s)
        × ((set_static_config sys iface address netmask gateway dns s).0.1 ≢ none)
  unfolding set_static_config
  set_static_config_invalid h = ground arith

  -- If no error is returned, the data passed all tests, and the rest of the call installs the unit
  -- made from it.
  pub set_static_config-install :
      (set_static_config sys iface address netmask gateway dns s).0.1 ≡ none
      → (unit : StaticData) × IsStatic
          (sys.nl.get_mac_address iface s).0
          address
          netmask
          gateway
          dns
          unit
        × (set_static_config sys iface address netmask gateway dns s
            ≡ install sys iface (sys.nu.get_interface_stats iface s).0 unit s)
  unfolding set_static_config
  set_static_config-install h = go (check_addresses mac address netmask gateway dns) refl
    where
      mac : Bytes
      mac = (sys.nl.get_mac_address iface s).0

      go :
          (c : Checked StaticData)
          → check_addresses mac address netmask gateway dns ≡ c
          → (unit : StaticData) × IsStatic
              (sys.nl.get_mac_address iface s).0
              address
              netmask
              gateway
              dns
              unit
            × (set_static_config sys iface address netmask gateway dns s
                ≡ install sys iface (sys.nu.get_interface_stats iface s).0 unit s)
      go (invalid e) p = absurd (ground arith)
      go (valid unit) p =
          (unit, check_addresses_ok mac address netmask gateway dns unit p, ground arith)

module _ {S : Type 0} (sys : System S) (content : Bytes → S → Option Bytes)
    (F : IsFileSystem sys content) where
  content-restart : (iface q : Bytes) (s : S) → content q (restart sys iface s).1 ≡ content q s
  unfolding restart
  content-restart iface q s = F.content-restart q s

  -- Once the file is written it stays, whatever comes of the restart.
  content-install :
      (iface : Bytes) (i : InterfaceData) (unit : StaticData) (s : S)
      → (remove_old sys i s).0 ≡ none
      → (sys.fs.write_file (unit_path iface) (unit_file unit) unit_mode (remove_old sys i s).1).0
        ≡ none
      → (content (unit_path iface) (install sys iface i unit s).1 ≡ some (unit_file unit))
        × ((install sys iface i unit s).0.1
            ≡ (sys.db.restart_networkd
                (sys.fs.write_file
                  (unit_path iface)
                  (unit_file unit)
                  unit_mode
                  (remove_old sys i s).1).1).0)
  unfolding install restart
  content-install iface i unit s kept written =
      let s1 = (remove_old sys i s).1 in
      let s2 = (sys.fs.write_file (unit_path iface) (unit_file unit) unit_mode s1).1 in
      ground (
        arith,
        F.content-restart (unit_path iface) s2,
        F.content-write (unit_path iface) (unit_file unit) (unit_path iface) unit_mode s1,
        bytes_eq_refl (unit_path iface),
      )

  -- If installing the unit returns no error, networkd was restarted with the unit in place.
  pub restarted_with :
      (iface : Bytes) (i : InterfaceData) (unit : StaticData) (s : S)
      → (install sys iface i unit s).0.1 ≡ none
      → (s1 : S) × (content (unit_path iface) s1 ≡ some (unit_file unit))
        × ((sys.db.restart_networkd s1).0 ≡ none)
        × ((install sys iface i unit s).1 ≡ (sys.db.restart_networkd s1).1)
  unfolding install restart
  restarted_with iface i unit s h =
      let s1 = (remove_old sys i s).1 in
      let s2 = (sys.fs.write_file (unit_path iface) (unit_file unit) unit_mode s1).1 in
      (
        s2,
        ground (
          arith,
          F.content-write (unit_path iface) (unit_file unit) (unit_path iface) unit_mode s1,
          bytes_eq_refl (unit_path iface),
        ),
        ground arith,
        ground arith,
      )

  pub content-install_ok :
      (iface : Bytes) (i : InterfaceData) (unit : StaticData) (s : S)
      → (install sys iface i unit s).0.1 ≡ none
      → content (unit_path iface) (install sys iface i unit s).1 ≡ some (unit_file unit)
  content-install_ok iface i unit s h =
      let (s1, there, ok, same) = restarted_with iface i unit s h in
      ground (arith, same, there, F.content-restart (unit_path iface) s1)

  content-remove_old :
      (i : InterfaceData) (q : Bytes) (s : S)
      → bytes_eq i.network_file q ≡ false
      → content q (remove_old sys i s).1 ≡ content q s
  unfolding remove_old
  content-remove_old i q s h = ground (arith, F.content-remove_other i.network_file q s)

  -- A call that returns no error has written the unit, rendered from data that passed all tests,
  -- to the interface's path. Assumed: files are written as documented, and a restart writes none.
  pub set_static_config_ok :
      (iface address netmask gateway dns : Bytes) (s : S)
      → (set_static_config sys iface address netmask gateway dns s).0.1 ≡ none
      → (unit : StaticData) × IsStatic
          (sys.nl.get_mac_address iface s).0
          address
          netmask
          gateway
          dns
          unit
        × (content (unit_path iface) (set_static_config sys iface address netmask gateway dns s).1
            ≡ some (unit_file unit))
  unfolding set_static_config
  set_static_config_ok iface address netmask gateway dns s h =
      let (unit, static, same) =
        set_static_config-install sys iface address netmask gateway dns s h in
      let i = (sys.nu.get_interface_stats iface s).0 in
      (unit, static, ground (arith, same, content-install_ok iface i unit s))

  -- If the interface is known, the addresses pass the tests, the old configuration is dealt with
  -- and the unit written, then the unit file is in place after the call, and what the call returns
  -- is the error of restarting networkd, or none. Assumed: files are written as documented, and a
  -- restart writes none.
  pub set_static_config_restart :
      (iface address netmask gateway dns : Bytes) (unit : StaticData) (s : S)
      → let i = (sys.nu.get_interface_stats iface s).0 in
        let s1 = (remove_old sys i s).1 in
        let w = sys.fs.write_file (unit_path iface) (unit_file unit) unit_mode s1 in
        (sys.nu.get_interface_stats iface s).1 ≡ none
        → (sys.nl.get_mac_address iface s).1 ≡ none
        → check_addresses (sys.nl.get_mac_address iface s).0 address netmask gateway dns
          ≡ valid unit
        → (remove_old sys i s).0 ≡ none
        → w.0 ≡ none
        → (content (unit_path iface) (set_static_config sys iface address netmask gateway dns s).1
            ≡ some (unit_file unit))
          × ((set_static_config sys iface address netmask gateway dns s).0.1
              ≡ (sys.db.restart_networkd w.1).0)
  unfolding set_static_config
  set_static_config_restart iface address netmask gateway dns unit s known no_mac passed kept
        written =
      let i = (sys.nu.get_interface_stats iface s).0 in
      ground (arith, content-install iface i unit s kept written)

  -- Files other than the unit and the interface's old configuration keep their content, whether
  -- the call succeeds or fails. Assumed: writing and removing touch one file, and a restart none.
  pub set_static_config_elsewhere :
      (iface address netmask gateway dns q : Bytes) (s : S)
      → bytes_eq (unit_path iface) q ≡ false
      → bytes_eq (sys.nu.get_interface_stats iface s).0.network_file q ≡ false
      → content q (set_static_config sys iface address netmask gateway dns s).1 ≡ content q s
  unfolding set_static_config install
  set_static_config_elsewhere iface address netmask gateway dns q s other other_old =
      go (check_addresses mac address netmask gateway dns) refl
    where
      i : InterfaceData
      i = (sys.nu.get_interface_stats iface s).0

      mac : Bytes
      mac = (sys.nl.get_mac_address iface s).0

      s1 : S
      s1 = (remove_old sys i s).1

      go :
          (c : Checked StaticData)
          → check_addresses mac address netmask gateway dns ≡ c
          → content q (set_static_config sys iface address netmask gateway dns s).1 ≡ content q s
      go (invalid e) p = ground arith
      go (valid unit) p = ground (
        arith,
        content-remove_old i q s other_old,
        F.content-write_other (unit_path iface) (unit_file unit) q unit_mode s1,
        content-restart iface q
            (sys.fs.write_file (unit_path iface) (unit_file unit) unit_mode s1).1,
      )
