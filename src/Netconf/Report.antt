-- ===== src/Netconf/Report.antt =====
-- getNetInterfaceData, reportOnInterface and showConfig of netconf.go, with the report's template.
pub mod Laws
use platform_configure.Prelude.{
  Bytes, Err, codes, List, [], ◌∷◌, ◌++◌, Option, none, some, bytes_eq, if◌then◌else◌,
}
use platform_configure.Netconf.Interface.{InterfaceData, System, Reply, is_default}

pub record ReportData : Type 0 where
  pub interface : Bytes
  pub state : Bytes
  pub mode : Bytes
  pub addresses : List Bytes
  pub hw_address : Bytes
  pub gateway : Bytes
  pub domains : List Bytes
  pub nameserver : List Bytes

-- `{{ range $key, $value := … }}    * {{ $value }}` and a line break
unfoldable pub items : List Bytes → Bytes
items [] = []
items (v ∷ vs) = codes "    * " ++ v ++ codes "\n" ++ items vs

items_or_none : List Bytes → Bytes
unfolding items
items_or_none [] = codes "    -- NONE --\n"
items_or_none (v ∷ vs) = items (v ∷ vs)

-- The report's template, executed.
unfoldable pub report : ReportData → Bytes
unfolding items items_or_none
report r =
    codes "\nInterface: "
    ++ r.interface
    ++ codes "\n=====================\nMode:      "
    ++ r.mode
    ++ codes "\nState:     "
    ++ r.state
    ++ codes "\nAssociated Addresses:\n"
    ++ items_or_none r.addresses
    ++ codes "HWAddress:   "
    ++ r.hw_address
    ++ codes "\nGateway:   "
    ++ r.gateway
    ++ codes "\nNameserver:\n"
    ++ items r.nameserver
    ++ codes "Domains:\n"
    ++ items r.domains

-- `routes[0]` if there is a route
unfoldable pub first_route : List Bytes → Bytes
first_route [] = []
first_route (r ∷ routes) = r

abbrev pub blank : Bytes → ReportData
blank name = record {
  interface = name;
  state = [];
  mode = [];
  addresses = [];
  hw_address = [];
  gateway = [];
  domains = [];
  nameserver = [];
}

module _ {S : Type 0} (sys : System S) where
  -- The data that is filled in so far, and the first error.
  unfoldable pub get_net_interface_data : Bytes → S → ReportData × Err
  unfolding first_route
  get_net_interface_data name s =
      let (i, err) = sys.nu.get_interface_stats name s in
      let (mac, no_mac) = sys.nl.get_mac_address name s in
      let (addresses, no_addresses) = sys.nl.get_list_of_addresses name s in
      let (routes, no_routes) = sys.nl.get_list_of_routes name s in
      let stats : ReportData = record (blank name) {
        mode = if is_default i then codes "DHCP" else codes "STATIC";
        nameserver = i.dns;
        domains = i.domains;
        state = i.oper_state;
      } in
      let with_mac : ReportData = record stats { hw_address = mac } in
      let with_addresses : ReportData = record with_mac { addresses = addresses } in
      elim err [
        | some e ↦ (blank name, some e)
        | none ↦ elim no_mac [
          | some e ↦ (with_mac, some e)
          | none ↦ elim no_addresses [
            | some e ↦ (with_addresses, some e)
            | none ↦ elim no_routes [
              | some e ↦ (with_addresses, some e)
              | none ↦ (record with_addresses { gateway = first_route routes }, none)
            ]
          ]
        ]
      ]

  unfoldable pub report_on_interface : Bytes → S → Reply
  report_on_interface name s =
      let (r, err) = get_net_interface_data name s in
      elim err [
        | some e ↦ ([], some (codes "getNetInterfaceData(): " ++ e))
        | none ↦ (report r, none)
      ]

  -- The loop of `showConfig`, with the result so far.
  unfoldable pub show_all : List Bytes → Bytes → S → Reply
  show_all [] result s = (result, none)
  show_all (name ∷ names) result s =
      let (text, err) = report_on_interface name s in
      elim err [ some e ↦ ([], some e) | none ↦ show_all names (result ++ text) s ]

  unfoldable pub show_config : S → Reply
  show_config s =
      let (names, err) = sys.nl.get_list_of_interfaces s in
      elim err [ some e ↦ ([], some e) | none ↦ show_all names [] s ]
