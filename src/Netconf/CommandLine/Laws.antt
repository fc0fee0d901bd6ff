-- ===== src/Netconf/CommandLine/Laws.antt =====
-- What a whole run of netconf leaves behind.
use platform_configure.Prelude.{
  sym, subst, Bytes, codes, ◌≡◌, ◌⊎◌, bytes_eq, contains, Option, none, some, true, false, arith,
}
use platform_configure.Netconf.Checked.{Checked, valid, invalid}
use platform_configure.Netconf.Interface.{System, user_folder}
use platform_configure.Netconf.FileSystem.{IsFileSystem}
use platform_configure.Netconf.Dhcp.Laws.{enable_dhcp_elsewhere, reset_to_dhcp_elsewhere}
use platform_configure.Netconf.Dhcp.{reset_to_dhcp}
use platform_configure.Netconf.Dhcp.Reset.{IsReset, reset_to_dhcp-IsReset}
use platform_configure.Netconf.Static.{
  StaticData, unit_path, unit_file, unit_mode, check_addresses, remove_old, set_static_config,
}
use platform_configure.Netconf.Static.Checks.{IsStatic}
use platform_configure.Netconf.Static.Effects.{
  set_static_config_invalid, set_static_config_ok, set_static_config_restart,
  set_static_config_elsewhere,
}
use platform_configure.Netconf.CommandLine.{Flags, switch_by_commandline, main}

-- The flags ask for a static configuration.
abbrev pub AsksStatic : Flags → Type 0
AsksStatic f =
    (f.show ≡ false) × (f.version ≡ false) × (f.reset ≡ false) × (f.mode ≡ codes "static")

module _ {S : Type 0} (sys : System S) (f : Flags) where
  -- The result of the tests on the addresses that the flags give.
  abbrev pub checked : S → Checked StaticData
  checked s =
      check_addresses (sys.nl.get_mac_address f.interface s).0 f.address f.netmask f.gateway f.dns

  pub static_call :
      (s : S)
      → AsksStatic f
      → switch_by_commandline sys f s
        ≡ set_static_config sys f.interface f.address f.netmask f.gateway f.dns s
  unfolding switch_by_commandline bytes_eq
  static_call s (a, b, c, d) = ground arith

  -- With `-show` or `-version` the program changes nothing.
  pub main_reads : (s : S) → (f.show ≡ true) ⊎ (f.version ≡ true) → (main sys f s).2 ≡ s
  unfolding main switch_by_commandline
  main_reads s h = ground arith

  -- In static mode, addresses that fail a test end the program with status 1 and nothing changed.
  pub main_invalid :
      {e : Bytes} (s : S)
      → AsksStatic f
      → checked s ≡ invalid e
      → ((main sys f s).0 ≡ 1) × ((main sys f s).2 ≡ s)
  unfolding main
  main_invalid s a h = ground (
    arith,
    static_call s a,
    set_static_config_invalid sys f.interface f.address f.netmask f.gateway f.dns s h,
  )

module _ {S : Type 0} (sys : System S) (content : Bytes → S → Option Bytes)
    (F : IsFileSystem sys content) (f : Flags) where
  -- If the program exits with status 0 in static mode, the unit file that the addresses ask for,
  -- which pass all tests, is in place. Assumed: files are written as documented, and a restart of
  -- networkd writes none.
  pub main-IsStatic :
      (s : S)
      → AsksStatic f
      → (main sys f s).0 ≡ 0
      → (unit : StaticData) × IsStatic
          (sys.nl.get_mac_address f.interface s).0
          f.address
          f.netmask
          f.gateway
          f.dns
          unit
        × (content (unit_path f.interface) (main sys f s).2 ≡ some (unit_file unit))
  unfolding main
  main-IsStatic s a h =
      let (unit, static, written) =
        set_static_config_ok sys content F f.interface f.address f.netmask f.gateway f.dns s
          (ground (arith, static_call sys f s a)) in
      (unit, static, ground (arith, static_call sys f s a, written))

  -- When in static mode the interface is known, the addresses pass the tests, the old
  -- configuration is dealt with and the unit written, but networkd cannot be restarted, the
  -- program exits with status 1 and prints that error alone, though the unit file is in place.
  -- Assumed: files are written as documented, and a restart writes none.
  pub main_restart :
      {e : Bytes} (unit : StaticData) (s : S)
      → let i = (sys.nu.get_interface_stats f.interface s).0 in
        let s1 = (remove_old sys i s).1 in
        let w = sys.fs.write_file (unit_path f.interface) (unit_file unit) unit_mode s1 in
        AsksStatic f
        → (sys.nu.get_interface_stats f.interface s).1 ≡ none
        → (sys.nl.get_mac_address f.interface s).1 ≡ none
        → checked sys f s ≡ valid unit
        → (remove_old sys i s).0 ≡ none
        → w.0 ≡ none
        → (sys.db.restart_networkd w.1).0 ≡ some e
        → ((main sys f s).0 ≡ 1)
          × ((main sys f s).1 ≡ e)
          × (content (unit_path f.interface) (main sys f s).2 ≡ some (unit_file unit))
  unfolding main
  main_restart unit s a known no_mac passed kept written failed = ground (
    arith,
    static_call sys f s a,
    set_static_config_restart sys content F f.interface f.address f.netmask f.gateway f.dns unit s
        known no_mac passed kept written,
  )

  -- Whatever the flags and the outcome, a file that is not in the user's folder, and is neither
  -- the interface's configuration nor at the path of the new unit, keeps its content. Assumed:
  -- writing and removing touch one file, and a restart of networkd none.
  pub main_elsewhere :
      (q : Bytes) (s : S)
      → contains q user_folder ≡ false
      → bytes_eq (unit_path f.interface) q ≡ false
      → bytes_eq (sys.nu.get_interface_stats f.interface s).0.network_file q ≡ false
      → content q (main sys f s).2 ≡ content q s
  unfolding main switch_by_commandline
  main_elsewhere q s outside other other_old = ground (
    arith,
    reset_to_dhcp_elsewhere sys content F q s outside,
    enable_dhcp_elsewhere sys content F f.interface q s outside,
    set_static_config_elsewhere sys content F f.interface f.address f.netmask f.gateway f.dns q s
        other other_old,
  )

  -- If the program exits with status 0 under `-reset`, the interfaces were listed, and each of them
  -- had the default configuration when it was its turn, or its configuration lay in the user's
  -- folder and is gone in the end. Assumed: files are removed as documented, os.Stat fails only
  -- where there is no file, and a restart of networkd writes no file.
  pub main-IsReset :
      (s : S)
      → (f.show ≡ false) × (f.version ≡ false) × (f.reset ≡ true)
      → (main sys f s).0 ≡ 0
      → ((sys.nl.get_list_of_interfaces s).1 ≡ none)
        × IsReset sys content (sys.nl.get_list_of_interfaces s).0 s (main sys f s).2
  unfolding main switch_by_commandline
  main-IsReset s (no_show, no_version, reset) ok =
      let call : switch_by_commandline sys f s ≡ reset_to_dhcp sys s = ground arith in
      let done = reset_to_dhcp-IsReset sys content F s (ground (arith, call)) in
      let same : (main sys f s).2 ≡ (reset_to_dhcp sys s).1 = ground (arith, call) in
      (done.0, subst (IsReset sys content (sys.nl.get_list_of_interfaces s).0 s) (sym same) done.1)
