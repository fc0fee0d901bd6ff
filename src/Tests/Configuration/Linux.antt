-- ===== src/Tests/Configuration/Linux.antt =====
-- netconf over the real interfaces.
use platform_configure.Prelude.{
  Bytes, Err, codes, ◌≡◌, ◌↔◌, refl, has_prefix, member, List, [], ◌∷◌, none, some, true,
}
use platform_configure.Prelude.Int.{pos}
use platform_configure.Prelude.Table.{Table, lookup}
use platform_configure.Netconf.Static.{StaticData, unit_file}
use platform_configure.Netconf.Static.Checks.{IsStatic}
use platform_configure.Netconf.Linux.{
  Link, Netlink, Dbus, hardware_names, is_hardware, get_list_of_interfaces, restart_networkd,
}
use platform_configure.Netconf.Linux.Laws.{Listed, get_list_of_interfaces_iff}
use platform_configure.Netconf.CommandLine.{main}
use platform_configure.Netconf.Linux.Whole.{real_main_ok}
use platform_configure.Netconf.Memory.{
  memory_net, memory_netutil, memory_bus, memory_os, memory-IsMachine,
}
use platform_configure.Netconf.Linux.{real_system, get_mac_address}
use platform_configure.Tests.Configuration.{NoError, simple, own_file, default_stats, run}

abbrev links : List Link
links =
    record { name = codes "eno0"; tx_q_len = pos 1000; hardware_addr = [] }
    ∷ record { name = codes "wlan0"; tx_q_len = pos 1000; hardware_addr = [] }
    ∷ record { name = codes "lo"; tx_q_len = pos 1; hardware_addr = [] }
    ∷ []

-- The state is the error of listing the routes.
abbrev machine_net : Netlink Err
machine_net = record {
  link_by_name = λ name s. (record { name = name; tx_q_len = pos 1000; hardware_addr = [] }, none);
  route_list = λ l s. (none ∷ some (codes "172.16.0.1") ∷ [], s);
  addr_list = λ l s. ([], none);
  link_list = λ s. (links, none);
}

abbrev machine_bus : Dbus Bytes
machine_bus = record { connect = λ s. (none, s); restart_unit = λ name mode s. (none, s, s) }

hardware_only : hardware_names links ≡ codes "eno0" ∷ []
unfolding hardware_names is_hardware has_prefix
hardware_only = refl

get_list_of_interfaces_iff_example :
    (member (codes "wlan0") (get_list_of_interfaces machine_net none).0 ≡ true)
    ↔ Listed (codes "wlan0") links
get_list_of_interfaces_iff_example =
    get_list_of_interfaces_iff machine_net (codes "wlan0") none refl

real_main_ok_example :
    let sys =
      real_system memory_net (memory_netutil default_stats) (memory_bus (codes "done")) memory_os in
    (unit : StaticData) × IsStatic
      (codes "0a:66:7f:12:8d:15")
      simple.address
      simple.netmask
      simple.gateway
      simple.dns
      unit
    × (lookup own_file (main sys simple []).2 ≡ some (unit_file unit))
    × ((s1 : Table) × (lookup own_file s1 ≡ some (unit_file unit))
        × NoError
        × (NoError × (codes "done" ≡ codes "done")))
unfolding run restart_networkd get_mac_address
real_main_ok_example =
    real_main_ok memory_net (memory_netutil default_stats) (memory_bus (codes "done")) memory_os
      lookup (memory-IsMachine (codes "done")) simple [] (refl, refl, refl, refl) refl
