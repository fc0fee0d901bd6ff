-- ===== src/Tests/Configuration/Doubles.antt =====
-- netconf with the test doubles of go/netconf/mocs.go.
use platform_configure.Prelude.{ℕ, Bytes, Err, codes, ◌≡◌, refl, [], ◌∷◌, none, some}
use platform_configure.Netconf.Static.{StaticData, unit_file}
use platform_configure.Netconf.Static.Checks.{IsStatic}
use platform_configure.Netconf.CommandLine.{Flags, main}
use platform_configure.Netconf.Mocs.{MocNl, MocNu, MocDbus, MocFs, new_moc_fs, doubled, at}
use platform_configure.Netconf.Mocs.Recording.{main_records}
use platform_configure.Tests.Configuration.{simple, simple_unit, own_file, default_stats, run}

-- As `TestSetStaticSimple` sets them.
abbrev moc : MocNl
moc = record {
  mac_address_data = (codes "enomeno42", codes "0a:66:7f:12:8d:15") ∷ [];
  mac_address_error = none;
  list_of_routes_data = codes "172.16.0.1" ∷ [];
  list_of_routes_error = none;
  list_of_addresses_data = codes "172.16.0.123/16" ∷ [];
  list_of_addresses_error = none;
  list_of_interfaces_data = codes "eno0" ∷ codes "eno1" ∷ codes "enomeno42" ∷ [];
  list_of_interfaces_error = none;
}

abbrev moc_stats : MocNu
moc_stats = record { stats = default_stats; stats_err = none }

abbrev moc_bus : MocDbus
moc_bus = record { err = none }

abbrev no_file : Bytes → MocFs → Err
no_file path s = some (codes "no such file")

run_doubled : Flags → ℕ × Bytes × MocFs
unfolding run at
run_doubled f = main (doubled moc moc_stats moc_bus no_file) f new_moc_fs

simple_recorded : (run_doubled simple).2.call_data ≡ unit_file simple_unit ∷ []
unfolding run_doubled
simple_recorded = refl

main_records_example :
    let after = (main (doubled moc moc_stats moc_bus no_file) simple new_moc_fs).2 in
    (unit : StaticData) × IsStatic
      (codes "0a:66:7f:12:8d:15")
      simple.address
      simple.netmask
      simple.gateway
      simple.dns
      unit
    × (after.call_names ≡ own_file ∷ [])
    × (after.call_data ≡ unit_file unit ∷ [])
unfolding run_doubled
main_records_example =
    main_records moc moc_stats moc_bus no_file simple new_moc_fs (refl, refl, refl, refl) refl
