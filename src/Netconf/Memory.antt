-- ===== src/Netconf/Memory.antt =====
-- A machine in memory that meets the assumed laws: its state is the list of its files. It has one
-- interface with fixed stats, and a restart of networkd has a fixed outcome.
use platform_configure.Prelude.{ℕ, Bytes, Err, codes, refl, [], ◌∷◌, none, some, arith}
use platform_configure.Prelude.Table.{Table, lookup, erase, lookup-erase}
use platform_configure.Netconf.Interface.{InterfaceData, System}
use platform_configure.Netconf.FileSystem.{IsFileSystem}
use platform_configure.Netconf.Linux.{Link, Netlink, Netutil, Dbus, Os}
use platform_configure.Netconf.Linux.Whole.{IsMachine}
use platform_configure.Prelude.Int.{pos}

abbrev stat : Bytes → Table → Err
stat path s = elim (lookup path s) [ none ↦ some (codes "no such file") | some text ↦ none ]

abbrev remove : Bytes → Table → Err × Table
remove path s = elim (lookup path s) [
  | none ↦ (some (codes "no such file"), s)
  | some text ↦ (none, erase path s)
]

abbrev write_file : Bytes → Bytes → ℕ → Table → Err × Table
write_file path text mode s = (none, (path, text) ∷ s)

abbrev pub memory : InterfaceData → Err → System Table
memory stats restarted = record {
  nl = record {
    get_mac_address = λ name s. (codes "0a:66:7f:12:8d:15", none);
    get_list_of_routes = λ name s. (codes "172.16.0.1" ∷ [], none);
    get_list_of_addresses = λ name s. (codes "172.16.0.123/16" ∷ [], none);
    get_list_of_interfaces = λ s. (codes "eno0" ∷ codes "enomeno42" ∷ [], none);
  };
  nu = record { get_interface_stats = λ name s. (stats, none) };
  db = record { restart_networkd = λ s. (restarted, s) };
  fs = record { write_file = write_file; remove = remove; stat = stat };
  os_stat = stat;
}

-- It meets them.
pub memory-IsFileSystem :
    (stats : InterfaceData) (restarted : Err) → IsFileSystem (memory stats restarted) lookup
memory-IsFileSystem stats restarted = record {
  content-write = λ path text q mode s h. refl;
  content-write_other = λ path text q mode s h. ground arith;
  content-remove = λ path q s h. ground (arith, lookup-erase path q s);
  content-remove_other = λ path q s h. ground (arith, lookup-erase path q s);
  content-stat = λ path e s h. ground arith;
  content-restart = λ q s. refl;
}

-- The same machine below the real interfaces: systemd's jobs end with the given result.
abbrev pub memory_os : Os Table
memory_os = record { write_file = write_file; remove = remove; stat = stat }

abbrev pub memory_bus : Bytes → Dbus Table
memory_bus result = record {
  connect = λ s. (none, s);
  restart_unit = λ unit mode s. (none, result, s);
}

abbrev device : Bytes → Link
device name = record { name = name; tx_q_len = pos 1000; hardware_addr = codes "0a:66:7f:12:8d:15" }

abbrev pub memory_net : Netlink Table
memory_net = record {
  link_by_name = λ name s. (device name, none);
  route_list = λ l s. ([], none);
  addr_list = λ l s. ([], none);
  link_list = λ s. (device (codes "enomeno42") ∷ [], none);
}

abbrev pub memory_netutil : InterfaceData → Netutil Table
memory_netutil stats = record { get_interface_stats = λ name s. (stats, none) }

pub memory-IsMachine : (result : Bytes) → IsMachine (memory_bus result) memory_os lookup
memory-IsMachine result = record {
  content-write = λ path text q mode s h. refl;
  content-write_other = λ path text q mode s h. ground arith;
  content-remove = λ path q s h. ground (arith, lookup-erase path q s);
  content-remove_other = λ path q s h. ground (arith, lookup-erase path q s);
  content-stat = λ path e s h. ground arith;
  content-connect = λ q s. refl;
  content-restart_unit = λ unit mode q s. refl;
}
