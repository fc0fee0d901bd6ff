-- ===== src/Netconf/Interface.antt =====
-- What netconf.go calls: the interfaces netLink, netUtil, dbusUtil and fsUtil. `S` is the state of
-- the machine; a query reads it, an operation returns its error and the state that it leaves.
use platform_configure.Prelude.{ℕ, Bytes, Err, codes, bytes_eq, Bool, List}

-- The fields of `netutil.InterfaceData` that are read.
pub record InterfaceData : Type 0 where
  pub network_file : Bytes
  pub dns : List Bytes
  pub domains : List Bytes
  pub oper_state : Bytes

pub record NetLink (S : Type 0) : Type 0 where
  pub get_mac_address : Bytes → S → Bytes × Err
  pub get_list_of_routes : Bytes → S → List Bytes × Err
  pub get_list_of_addresses : Bytes → S → List Bytes × Err
  pub get_list_of_interfaces : S → List Bytes × Err

pub record NetUtil (S : Type 0) : Type 0 where
  pub get_interface_stats : Bytes → S → InterfaceData × Err

pub record DbusUtil (S : Type 0) : Type 0 where
  pub restart_networkd : S → Err × S

-- The number is the file's mode.
pub record FsUtil (S : Type 0) : Type 0 where
  pub write_file : Bytes → Bytes → ℕ → S → Err × S
  pub remove : Bytes → S → Err × S
  pub stat : Bytes → S → Err

-- The global variables `nl`, `nu`, `db` and `fs`, and the function os.Stat.
pub record System (S : Type 0) : Type 0 where
  pub nl : NetLink S
  pub nu : NetUtil S
  pub db : DbusUtil S
  pub fs : FsUtil S
  pub os_stat : Bytes → S → Err

-- A text and an error, as the functions return them together.
abbrev pub Reply : Type 0
Reply = Bytes × Err

abbrev pub default_network_file : Bytes
default_network_file = codes "/usr/lib64/systemd/network/zz-default.network"

abbrev pub user_folder : Bytes
user_folder = codes "/etc/systemd/network/"

abbrev pub is_default : InterfaceData → Bool
is_default i = bytes_eq i.network_file default_network_file
