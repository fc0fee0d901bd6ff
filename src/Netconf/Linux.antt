-- ===== src/Netconf/Linux.antt =====
-- netlink_linux.go: the real netLink, netUtil, dbusUtil and fsUtil, over the packages netlink,
-- netutil, go-systemd/dbus, io/ioutil and os.
pub mod Laws
pub mod Whole
use platform_configure.Prelude.{
  ℕ, Bytes, Err, codes, bytes_eq, has_prefix, not, ltb, Bool, true, false, ◌&&◌, List, [], ◌∷◌,
  ◌++◌, Option, none, some, map, if◌then◌else◌,
}
use platform_configure.Prelude.Int.{ℤ, pos, negsuc}
use platform_configure.Netconf.Interface.{InterfaceData, NetLink, NetUtil, DbusUtil, FsUtil, System}

-- The attributes of a link that are read.
pub record Link : Type 0 where
  pub name : Bytes
  pub tx_q_len : ℤ
  pub hardware_addr : Bytes

-- Package netlink: `route_list` gives each IPv4 route's gateway, printed, if it has one, and
-- `addr_list` gives each address with its mask, printed.
pub record Netlink (S : Type 0) : Type 0 where
  pub link_by_name : Bytes → S → Link × Err
  pub route_list : Link → S → List (Option Bytes) × Err
  pub addr_list : Link → S → List Bytes × Err
  pub link_list : S → List Link × Err

-- Package dbus: a connection, and the job of restarting a unit with the result that it sends.
pub record Dbus (S : Type 0) : Type 0 where
  pub connect : S → Err × S
  pub restart_unit : Bytes → Bytes → S → Err × Bytes × S

-- Package netutil.
pub record Netutil (S : Type 0) : Type 0 where
  pub get_interface_stats : Bytes → S → InterfaceData × Err

-- Packages io/ioutil and os.
pub record Os (S : Type 0) : Type 0 where
  pub write_file : Bytes → Bytes → ℕ → S → Err × S
  pub remove : Bytes → S → Err × S
  pub stat : Bytes → S → Err

unfoldable pub gateways : List (Option Bytes) → List Bytes
gateways [] = []
gateways (none ∷ routes) = gateways routes
gateways (some gw ∷ routes) = gw ∷ gateways routes

unfoldable pub is_hardware : Link → Bool
is_hardware l =
    elim l.tx_q_len [ pos n ↦ ltb 1 n | negsuc n ↦ false ] && not (has_prefix l.name (codes "wl"))

-- The loop of `GetListOfInterfaces`.
unfoldable pub hardware_names : List Link → List Bytes
unfolding is_hardware
hardware_names [] = []
hardware_names (l ∷ links) =
    let rest = hardware_names links in if is_hardware l then l.name ∷ rest else rest

module _ {S : Type 0} (net : Netlink S) where
  unfoldable pub get_mac_address : Bytes → S → Bytes × Err
  get_mac_address name s =
      let (link, err) = net.link_by_name name s in
      elim err [ some e ↦ ([], some e) | none ↦ (link.hardware_addr, none) ]

  -- An error of the listing counts only if it lists nothing.
  unfoldable pub get_list_of_routes : Bytes → S → List Bytes × Err
  unfolding gateways
  get_list_of_routes name s =
      let (link, err) = net.link_by_name name s in
      elim err [
        | some e ↦ ([], some e)
        | none ↦
            let (routes, failed) = net.route_list link s in
            elim failed [
              | none ↦ (gateways routes, none)
              | some e ↦ elim routes [ [] ↦ ([], some e) | r ∷ rs ↦ (gateways (r ∷ rs), none) ]
            ]
      ]

  unfoldable pub get_list_of_addresses : Bytes → S → List Bytes × Err
  get_list_of_addresses name s =
      let (link, err) = net.link_by_name name s in
      elim err [
        | some e ↦ ([], some e)
        | none ↦
            let (addresses, failed) = net.addr_list link s in
            elim failed [ some e ↦ ([], some e) | none ↦ (addresses, none) ]
      ]

  unfoldable pub get_list_of_interfaces : S → List Bytes × Err
  unfolding hardware_names
  get_list_of_interfaces s =
      let (links, err) = net.link_list s in
      elim err [ some e ↦ ([], some e) | none ↦ (hardware_names links, none) ]

  abbrev pub real_nl : NetLink S
  real_nl = record {
    get_mac_address = get_mac_address;
    get_list_of_routes = get_list_of_routes;
    get_list_of_addresses = get_list_of_addresses;
    get_list_of_interfaces = get_list_of_interfaces;
  }

module _ {S : Type 0} (bus : Dbus S) where
  -- `restartNetworkD` waits for the job's result, which must be `done`.
  unfoldable pub restart_networkd : S → Err × S
  unfolding bytes_eq
  restart_networkd s =
      let (refused, s1) = bus.connect s in
      elim refused [
        | some e ↦ (some e, s1)
        | none ↦
            let (err, result, s2) =
              bus.restart_unit (codes "systemd-networkd.service") (codes "fail") s1 in
            elim err [
              | some e ↦ (some e, s2)
              | none ↦
                  if bytes_eq result (codes "done")
                  then (none, s2)
                  else (some (codes "Unexpected SYSTEMD API result: " ++ result), s2)
            ]
      ]

  abbrev pub real_dbus : DbusUtil S
  real_dbus = record { restart_networkd = restart_networkd }

abbrev pub real_nu : {S : Type 0} → Netutil S → NetUtil S
real_nu netutil = record { get_interface_stats = netutil.get_interface_stats }

abbrev pub real_fs : {S : Type 0} → Os S → FsUtil S
real_fs os = record { write_file = os.write_file; remove = os.remove; stat = os.stat }

-- The global variables as netlink_linux.go sets them.
abbrev pub real_system : {S : Type 0} → Netlink S → Netutil S → Dbus S → Os S → System S
real_system net netutil bus os = record {
  nl = real_nl net;
  nu = real_nu netutil;
  db = real_dbus bus;
  fs = real_fs os;
  os_stat = os.stat;
}
