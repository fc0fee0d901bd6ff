-- ===== src/Netconf/Mocs.antt =====
-- mocs.go: the test doubles of netLink, netUtil, dbusUtil and fsUtil.
pub mod Recording
use platform_configure.Prelude.{Bytes, Err, List, [], ◌∷◌, ◌++◌, Option, none, some}
use platform_configure.Prelude.Table.{Table, lookup}
use platform_configure.Netconf.Interface.{InterfaceData, NetLink, NetUtil, DbusUtil, FsUtil, System}

pub record MocNl : Type 0 where
  pub mac_address_data : Table
  pub mac_address_error : Err
  pub list_of_routes_data : List Bytes
  pub list_of_routes_error : Err
  pub list_of_addresses_data : List Bytes
  pub list_of_addresses_error : Err
  pub list_of_interfaces_data : List Bytes
  pub list_of_interfaces_error : Err

pub record MocNu : Type 0 where
  pub stats : InterfaceData
  pub stats_err : Err

pub record MocDbus : Type 0 where
  pub err : Err

-- What `Stat` tells of a file besides its error is read nowhere, and left out.
pub record MocFs : Type 0 where
  pub err : Err
  pub call_names : List Bytes
  pub call_data : List Bytes

-- A key that a map of strings does not have reads as the empty string.
unfoldable pub at : Bytes → Table → Bytes
at name addresses = elim (lookup name addresses) [ none ↦ [] | some address ↦ address ]

abbrev pub moc_nl : {S : Type 0} → MocNl → NetLink S
moc_nl n = record {
  get_mac_address = λ name s. (at name n.mac_address_data, n.mac_address_error);
  get_list_of_routes = λ name s. (n.list_of_routes_data, n.list_of_routes_error);
  get_list_of_addresses = λ name s. (n.list_of_addresses_data, n.list_of_addresses_error);
  get_list_of_interfaces = λ s. (n.list_of_interfaces_data, n.list_of_interfaces_error);
}

abbrev pub moc_nu : {S : Type 0} → MocNu → NetUtil S
moc_nu n = record { get_interface_stats = λ name s. (n.stats, n.stats_err) }

abbrev pub moc_dbus : {S : Type 0} → MocDbus → DbusUtil S
moc_dbus d = record { restart_networkd = λ s. (d.err, s) }

-- The methods have a pointer to the double: it is the state.
abbrev pub moc_fs : FsUtil MocFs
moc_fs = record {
  write_file = λ name text mode s. (
    s.err,
    record s { call_names = s.call_names ++ name ∷ []; call_data = s.call_data ++ text ∷ [] },
  );
  remove = λ name s. (s.err, s);
  stat = λ name s. s.err;
}

abbrev pub new_moc_fs : MocFs
new_moc_fs = record { err = none; call_names = []; call_data = [] }

-- The global variables as the tests set them. os.Stat has no double.
abbrev pub doubled : MocNl → MocNu → MocDbus → (Bytes → MocFs → Err) → System MocFs
doubled n u d os_stat = record {
  nl = moc_nl n;
  nu = moc_nu u;
  db = moc_dbus d;
  fs = moc_fs;
  os_stat = os_stat;
}
