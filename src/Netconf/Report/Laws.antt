-- ===== src/Netconf/Report/Laws.antt =====
-- What `showConfig` prints.
use platform_configure.Prelude.{
  Bytes, ◌≡◌, ◌↔◌, codes, if◌then◌else◌, All, List, [], ◌∷◌, ◌++◌, append-nil, append_assoc, none,
  arith,
}
use platform_configure.Netconf.Interface.{System, is_default}
use platform_configure.Netconf.Report.{
  ReportData, report, first_route, get_net_interface_data, report_on_interface, show_all,
  show_config,
}

module _ {S : Type 0} (sys : System S) (s : S) where
  -- All that can be asked about the interface is known.
  abbrev pub IsKnown : Bytes → Type 0
  IsKnown name =
      ((sys.nu.get_interface_stats name s).1 ≡ none)
      × ((sys.nl.get_mac_address name s).1 ≡ none)
      × ((sys.nl.get_list_of_addresses name s).1 ≡ none)
      × ((sys.nl.get_list_of_routes name s).1 ≡ none)

  -- What is known about the interface.
  abbrev pub described : Bytes → ReportData
  described name =
      let i = (sys.nu.get_interface_stats name s).0 in
      record {
        interface = name;
        state = i.oper_state;
        mode = if is_default i then codes "DHCP" else codes "STATIC";
        addresses = (sys.nl.get_list_of_addresses name s).0;
        hw_address = (sys.nl.get_mac_address name s).0;
        gateway = first_route (sys.nl.get_list_of_routes name s).0;
        domains = i.domains;
        nameserver = i.dns;
      }

  -- The reports of the interfaces, one after another.
  abbrev pub reports : List Bytes → Bytes
  reports [] = []
  reports (name ∷ names) = report (described name) ++ reports names

  report_on_interface-IsKnown :
      (name : Bytes)
      → IsKnown name
      → report_on_interface sys name s ≡ (report (described name), none)
  unfolding report_on_interface get_net_interface_data
  report_on_interface-IsKnown name h = ground arith

  report_on_interface_ok : (name : Bytes) → (report_on_interface sys name s).1 ≡ none → IsKnown name
  unfolding report_on_interface get_net_interface_data
  report_on_interface_ok name h = ground arith

  show_all-IsKnown :
      (names : List Bytes) (result : Bytes)
      → All IsKnown names
      → show_all sys names result s ≡ (result ++ reports names, none)
  unfolding show_all
  show_all-IsKnown [] result h = cc (append-nil result)
  show_all-IsKnown (name ∷ names) result (k, h) =
      let text = report (described name) in
      ground (
        arith,
        report_on_interface-IsKnown name k,
        show_all-IsKnown names (result ++ text) h,
        append_assoc result text (reports names),
      )

  show_all_ok :
      (names : List Bytes) (result : Bytes)
      → (show_all sys names result s).1 ≡ none
      → All IsKnown names
  unfolding show_all
  show_all_ok [] result h = tt
  show_all_ok (name ∷ names) result h =
      let text = (report_on_interface sys name s).0 in
      (
        ground (arith, report_on_interface_ok name),
        show_all_ok names (result ++ text) (ground arith),
      )

  -- `-show` returns no error just when the interfaces can be listed and the statistics, the MAC
  -- address, the addresses and the routes of each of them are known. Just then it returns the
  -- reports of all interfaces, in the order of the listing, each with the mode, state, addresses,
  -- MAC address, first route, name servers and domains of its interface.
  pub show_config_ok :
      let names = (sys.nl.get_list_of_interfaces s).0 in
      let known = ((sys.nl.get_list_of_interfaces s).1 ≡ none) × All IsKnown names in
      (((show_config sys s).1 ≡ none) ↔ known)
      × ((show_config sys s ≡ (reports names, none)) ↔ known)
  unfolding show_config
  show_config_ok =
      let names = (sys.nl.get_list_of_interfaces s).0 in
      (
        (
          (λ h. ground (arith, show_all_ok names [])),
          (λ h. ground (arith, show_all-IsKnown names [] h.1)),
        ),
        (
          (λ h. ground (arith, show_all_ok names [])),
          (λ h. ground (arith, show_all-IsKnown names [] h.1)),
        ),
      )
