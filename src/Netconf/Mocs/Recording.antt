-- ===== src/Netconf/Mocs/Recording.antt =====
-- What the test doubles have recorded after a run of netconf.
use platform_configure.Prelude.{Bytes, Err, ◌≡◌, [], ◌∷◌, ◌++◌, none, arith}
use platform_configure.Netconf.Interface.{InterfaceData}
use platform_configure.Netconf.Static.{
  StaticData, unit_path, unit_file, remove_old, restart, install,
}
use platform_configure.Netconf.Static.Checks.{IsStatic}
use platform_configure.Netconf.Static.Effects.{set_static_config-install}
use platform_configure.Netconf.CommandLine.{Flags, main}
use platform_configure.Netconf.CommandLine.Laws.{AsksStatic, static_call}
use platform_configure.Netconf.Mocs.{at, MocNl, MocNu, MocDbus, MocFs, doubled}

module _ (n : MocNl) (u : MocNu) (d : MocDbus) (os_stat : Bytes → MocFs → Err) where
  -- The double after one more write.
  abbrev wrote : Bytes → Bytes → MocFs → MocFs
  wrote name text s = record s {
    call_names = s.call_names ++ name ∷ [];
    call_data = s.call_data ++ text ∷ [];
  }

  install-wrote :
      (iface : Bytes) (i : InterfaceData) (unit : StaticData) (s : MocFs)
      → (install (doubled n u d os_stat) iface i unit s).0.1 ≡ none
      → (install (doubled n u d os_stat) iface i unit s).1
        ≡ wrote (unit_path iface) (unit_file unit) s
  unfolding install remove_old restart
  install-wrote iface i unit s h = ground arith

  -- If netconf, over the test doubles, exits with status 0 in static mode, it has asked for exactly
  -- one file to be written, the interface's unit, rendered from addresses that passed all tests.
  pub main_records :
      (f : Flags) (s : MocFs)
      → let after = (main (doubled n u d os_stat) f s).2 in
        AsksStatic f
        → (main (doubled n u d os_stat) f s).0 ≡ 0
        → (unit : StaticData) × IsStatic
            (at f.interface n.mac_address_data)
            f.address
            f.netmask
            f.gateway
            f.dns
            unit
          × (after.call_names ≡ s.call_names ++ unit_path f.interface ∷ [])
          × (after.call_data ≡ s.call_data ++ unit_file unit ∷ [])
  unfolding main
  main_records f s asks ok =
      let sys = doubled n u d os_stat in
      let call = static_call sys f s asks in
      let (unit, static, same) =
        set_static_config-install sys f.interface f.address f.netmask f.gateway f.dns s
          (ground (arith, call)) in
      let wrote = install-wrote f.interface u.stats unit s (ground (arith, call, same)) in
      (unit, static, ground (arith, call, same, wrote), ground (arith, call, same, wrote))
