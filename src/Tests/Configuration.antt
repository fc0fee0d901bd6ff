-- ===== src/Tests/Configuration.antt =====
-- netconf on a machine in memory, with the data of go/netconf/netconf_test.go.
mod Doubles
mod Linux
use platform_configure.Prelude.{
  ℕ, Bytes, Err, codes, ◌≡◌, ◌≢◌, ◌↔◌, ◌⊎◌, inl, refl, bytes_eq, contains, has_prefix, split, trim,
  member, All, List, [], ◌∷◌, none, some, true, false,
}
use platform_configure.Prelude.FilePath.{join, clean}
use platform_configure.Prelude.Int.{pos}
use platform_configure.Net.Number.{atoi, to_byte, decimal}
use platform_configure.Net.Ip.{parse_ip, to4}
use platform_configure.Net.IpText.{ip_string}
use platform_configure.Net.Network.{
  contains_ip, ipnet_string, network_number_and_mask, same_network, simple_mask_length,
}
use platform_configure.Netconf.Checked.{Checked, valid}
use platform_configure.Netconf.Interface.{InterfaceData, is_default, user_folder}
use platform_configure.Prelude.Table.{Table, lookup}
use platform_configure.Netconf.Memory.{memory, memory-IsFileSystem}
use platform_configure.Netconf.Static.{
  StaticData, dns_lines, unit_file, mask_byte, mask_bytes, parse_map, require_ip, dns_list,
  check_gateway, check_addresses, remove_old, restart, install, set_static_config,
}
use platform_configure.Netconf.Static.Again.{check_addresses_again}
use platform_configure.Netconf.Static.Checks.{IsStatic, check_addresses_ok}
use platform_configure.Netconf.Static.Effects.{set_static_config_restart}
use platform_configure.Netconf.CommandLine.Laws.{main-IsReset}
use platform_configure.Netconf.Dhcp.Reset.{IsReset}
use platform_configure.Netconf.Dhcp.{
  reset_all, reset_to_dhcp, remove_if_there, drop_user_file, enable_dhcp,
}
use platform_configure.Netconf.Dhcp.Laws.{enable_dhcp_ok}
use platform_configure.Netconf.Report.{show_config}
use platform_configure.Netconf.Report.Laws.{IsKnown, reports, show_config_ok}
use platform_configure.Netconf.Linux.{
  Link, Netlink, Dbus, hardware_names, is_hardware, get_list_of_interfaces, get_list_of_routes,
  restart_networkd,
}
use platform_configure.Netconf.Linux.Laws.{
  Listed, get_list_of_interfaces_iff, get_list_of_routes_ok, restart_networkd_ok,
}
use platform_configure.Netconf.CommandLine.{Flags, switch_by_commandline, main}
use platform_configure.Netconf.CommandLine.Laws.{
  checked, main_reads, main_invalid, main-IsStatic, main_restart, main_elsewhere,
}

abbrev stats : Bytes → InterfaceData
stats file = record {
  network_file = file;
  dns = codes "8.8.8.8" ∷ [];
  domains = codes "blablabla.lalala.net" ∷ [];
  oper_state = codes "routable";
}

abbrev default_stats : InterfaceData
default_stats = stats (codes "/usr/lib64/systemd/network/zz-default.network")

-- What an earlier call wrote.
abbrev own_file : Bytes
own_file = codes "/etc/systemd/network/enomeno42.network"

-- The flags of `TestSetStaticSimple`, with the given mask.
abbrev flags : Bytes → Flags
flags netmask = record {
  show = false;
  reset = false;
  mode = codes "static";
  interface = codes "enomeno42";
  address = codes "192.168.23.42";
  netmask = netmask;
  gateway = codes "192.168.23.45";
  dns = codes "8.8.8.8, 8.8.4.4";
  version = false;
}

abbrev simple : Flags
simple = flags (codes "255.255.255.128")

abbrev simple_unit : StaticData
simple_unit = record {
  mac = codes "0a:66:7f:12:8d:15";
  address = codes "192.168.23.42/25";
  gateway = codes "192.168.23.45";
  dns = codes "8.8.8.8" ∷ codes "8.8.4.4" ∷ [];
}

check : Flags → Checked StaticData
unfolding check_addresses parse_map mask_bytes mask_byte split trim atoi to_byte require_ip parse_ip
    check_gateway contains_ip network_number_and_mask same_network to4 dns_list ip_string
    ipnet_string simple_mask_length decimal bytes_eq
check f = checked (memory default_stats none) f []

accepted : check simple ≡ valid simple_unit
unfolding check
accepted = refl

check_addresses_again_example :
    (parse_ip simple_unit.gateway ≡ parse_ip simple.gateway)
    × (check_addresses
          (codes "0a:66:7f:12:8d:15")
          simple.address
          simple.netmask
          simple_unit.gateway
          simple.dns
        ≡ valid simple_unit)
unfolding check
check_addresses_again_example =
    check_addresses_again (codes "0a:66:7f:12:8d:15") simple.address simple.netmask simple.gateway
      simple.dns simple_unit accepted

-- Only the low eight bits of each number of a mask count.
wrapped_mask : parse_map (codes "511.256.0.-256") ≡ valid (255 ∷ 0 ∷ 0 ∷ 0 ∷ [])
unfolding parse_map mask_bytes mask_byte split atoi to_byte
wrapped_mask = refl

run : InterfaceData → Err → Flags → Table → ℕ × Bytes × Table
unfolding check main switch_by_commandline set_static_config install remove_old restart unit_file
    dns_lines join clean contains has_prefix
run i restarted f s = main (memory i restarted) f s

-- `TestSetStaticSimple`
simple_written :
    (run default_stats none simple []).2
    ≡ (codes "/etc/systemd/network/enomeno42.network", unit_file simple_unit) ∷ []
unfolding run
simple_written = refl

unit_lines :
    unit_file simple_unit
    ≡ codes
        "[Match]\nMACAddress=0a:66:7f:12:8d:15\n\n[Network]\nAddress=192.168.23.42/25\nGateway=192.168.23.45\nDNS=8.8.8.8\nDNS=8.8.4.4\n"
unfolding unit_file dns_lines
unit_lines = refl

main_restart_example :
    ((main (memory (stats own_file) (some (codes "no bus"))) simple ((own_file, []) ∷ [])).0 ≡ 1)
    × ((main (memory (stats own_file) (some (codes "no bus"))) simple ((own_file, []) ∷ [])).1
        ≡ codes "no bus")
    × (lookup own_file
          (main (memory (stats own_file) (some (codes "no bus"))) simple ((own_file, []) ∷ [])).2
        ≡ some (unit_file simple_unit))
unfolding run
main_restart_example =
    main_restart (memory (stats own_file) (some (codes "no bus"))) lookup
      (memory-IsFileSystem (stats own_file) (some (codes "no bus"))) simple simple_unit
      ((own_file, []) ∷ []) (refl, refl, refl, refl) refl refl refl refl refl refl

main_invalid_example :
    ((main (memory default_stats none) (flags (codes "255.255")) []).0 ≡ 1)
    × ((main (memory default_stats none) (flags (codes "255.255")) []).2 ≡ [])
unfolding run
main_invalid_example =
    main_invalid (memory default_stats none) (flags (codes "255.255")) [] (refl, refl, refl, refl)
      refl

abbrev show_flags : Flags
show_flags = record simple { show = true }

abbrev hosts : Table
hosts = (codes "/etc/hosts", codes "x") ∷ (own_file, []) ∷ []

main_elsewhere_example :
    lookup (codes "/etc/hosts") (main (memory (stats own_file) none) simple hosts).2
    ≡ some (codes "x")
unfolding run
main_elsewhere_example =
    main_elsewhere (memory (stats own_file) none) lookup (memory-IsFileSystem (stats own_file) none)
      simple (codes "/etc/hosts") hosts refl refl refl

check_addresses_ok_example :
    IsStatic
      (codes "0a:66:7f:12:8d:15")
      simple.address
      simple.netmask
      simple.gateway
      simple.dns
      simple_unit
unfolding check
check_addresses_ok_example =
    check_addresses_ok (codes "0a:66:7f:12:8d:15") simple.address simple.netmask simple.gateway
      simple.dns simple_unit accepted

abbrev NoError : Type 0
NoError = ◌≡◌ {A = Err} none none

enable_dhcp_ok_example :
    let after = enable_dhcp (memory (stats own_file) none) (codes "enomeno42") hosts in
    NoError
    × ((is_default (stats own_file) ≡ true)
        ⊎ (contains own_file user_folder ≡ true) × (lookup own_file after.1 ≡ none))
unfolding enable_dhcp drop_user_file remove_if_there contains has_prefix bytes_eq
enable_dhcp_ok_example =
    enable_dhcp_ok (memory (stats own_file) none) lookup (memory-IsFileSystem (stats own_file) none)
      (codes "enomeno42") hosts refl

show_config_ok_example :
    let sys = memory default_stats none in
    let names = codes "eno0" ∷ codes "enomeno42" ∷ [] in
    let known = NoError × All (IsKnown sys hosts) names in
    (((show_config sys hosts).1 ≡ none) ↔ known)
    × ((show_config sys hosts ≡ (reports sys hosts names, none)) ↔ known)
show_config_ok_example = show_config_ok (memory default_stats none) hosts

abbrev reset_flags : Flags
reset_flags = record simple { reset = true }

main-IsReset_example :
    NoError
    × IsReset
        (memory (stats own_file) none)
        lookup
        (codes "eno0" ∷ codes "enomeno42" ∷ [])
        hosts
        (main (memory (stats own_file) none) reset_flags hosts).2
unfolding main switch_by_commandline reset_to_dhcp reset_all enable_dhcp drop_user_file
    remove_if_there contains has_prefix bytes_eq
main-IsReset_example =
    main-IsReset (memory (stats own_file) none) lookup (memory-IsFileSystem (stats own_file) none)
      reset_flags hosts (refl, refl, refl) refl
