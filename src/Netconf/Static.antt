-- ===== src/Netconf/Static.antt =====
-- parseMap and setStaticConfig of netconf.go, with the unit's template.
pub mod Mask
pub mod Checks
pub mod Effects
pub mod Again
use platform_configure.Prelude.{
  ℕ, Bytes, Err, codes, split, trim, contains, length, List, [], ◌∷◌, ◌++◌, Option, none, some,
  Bool, true, false, ◌==◌, if◌then◌else◌,
}
use platform_configure.Prelude.FilePath.{join}
use platform_configure.Net.Number.{Atoi, number, syntax_error, range_error, atoi, to_byte}
use platform_configure.Net.Ip.{parse_ip}
use platform_configure.Net.IpText.{ip_string}
use platform_configure.Net.Network.{IpNet, contains_ip, ipnet_string}
use platform_configure.Netconf.Checked.{Checked, valid, invalid, ◌>>=◌}
use platform_configure.Netconf.Interface.{InterfaceData, System, Reply, is_default, user_folder}

pub record StaticData : Type 0 where
  pub mac : Bytes
  pub address : Bytes
  pub gateway : Bytes
  pub dns : List Bytes

-- `{{ range $key, $value := .DNS }}DNS={{ $value }}` and a line break
unfoldable pub dns_lines : List Bytes → Bytes
dns_lines [] = []
dns_lines (v ∷ vs) = codes "DNS=" ++ v ++ codes "\n" ++ dns_lines vs

-- The unit's template, executed.
unfoldable pub unit_file : StaticData → Bytes
unfolding dns_lines
unit_file d =
    codes "[Match]\nMACAddress="
    ++ d.mac
    ++ codes "\n\n[Network]\nAddress="
    ++ d.address
    ++ codes "\nGateway="
    ++ d.gateway
    ++ codes "\n"
    ++ dns_lines d.dns

-- The errors of `Atoi`, for a text that needs no quoting.
abbrev syntax_message : Bytes → Bytes
syntax_message s = codes "strconv.ParseInt: parsing \"" ++ s ++ codes "\": invalid syntax"

abbrev range_message : Bytes → Bytes
range_message s = codes "strconv.ParseInt: parsing \"" ++ s ++ codes "\": value out of range"

-- One round of the loop of `parseMap`.
unfoldable pub mask_byte : Bytes → Checked ℕ
mask_byte s = elim (atoi s) [
  | number b ↦ valid (to_byte b)
  | syntax_error ↦ invalid (syntax_message s)
  | range_error ↦ invalid (range_message s)
]

unfoldable pub mask_bytes : List Bytes → Checked Bytes
mask_bytes [] = valid []
mask_bytes (s ∷ ss) = do b ← mask_byte s; bs ← mask_bytes ss; valid (b ∷ bs)

-- `parseMap`
unfoldable pub parse_map : Bytes → Checked Bytes
parse_map s =
    if length (split s 46) == 4
    then mask_bytes (split s 46)
    else invalid (codes "Not a valid net mask: " ++ s)

-- `ip == nil` is an error.
unfoldable pub require_ip : Bytes → Bytes → Checked Bytes
require_ip [] e = invalid e
require_ip (b ∷ bs) e = valid (b ∷ bs)

-- The loop over the name servers.
unfoldable pub dns_list : List Bytes → Checked (List Bytes)
dns_list [] = valid []
dns_list (s ∷ ss) = do
  ip ←
      require_ip (parse_ip (trim s 32))
        (codes "'" ++ s ++ codes "' (dns) is not a valid IP address")
  ips ← dns_list ss
  valid (ip_string ip ∷ ips)

-- The pointing finger of the message, in UTF-8, and a tab.
abbrev finger : Bytes
finger = 240 ∷ 159 ∷ 150 ∷ 149 ∷ 9 ∷ []

abbrev pub not_within : Bytes → IpNet → Bytes
not_within gateway net =
    finger
    ++ codes "Gateway address '"
    ++ ip_string gateway
    ++ codes "' is not within the network '"
    ++ ipnet_string net
    ++ codes "'"

-- The tests on the gateway: first that the network contains it, then that it is an address.
unfoldable pub check_gateway : IpNet → Bytes → Checked Bytes
check_gateway net gateway =
    if contains_ip net (parse_ip gateway)
    then require_ip (parse_ip gateway)
        (codes "'" ++ gateway ++ codes "' (gateway) is not a valid IP address")
    else invalid (not_within (parse_ip gateway) net)

-- The tests on the addresses, in the code's order: the mask, the address, the gateway, the name
-- servers.
unfoldable pub check_addresses : Bytes → Bytes → Bytes → Bytes → Bytes → Checked StaticData
check_addresses mac address netmask gateway dns = do
  mask ← parse_map netmask
  ip ←
      require_ip (parse_ip address)
        (codes "'" ++ address ++ codes "' (address) is not a valid IP address")
  gw ← check_gateway (record { ip = ip; mask = mask }) gateway
  servers ← dns_list (split (trim dns 32) 44)
  valid (record {
    mac = mac;
    address = ipnet_string (record { ip = ip; mask = mask });
    gateway = ip_string gw;
    dns = servers;
  })

abbrev pub configuring : Bytes → Bytes
configuring iface = codes "Configuring interface '" ++ iface ++ codes "'...\n"

-- path.Join("/etc/systemd/network/", iface+".network")
abbrev pub unit_path : Bytes → Bytes
unit_path iface = join user_folder (iface ++ codes ".network")

abbrev pub unit_mode : ℕ
unit_mode = 0o644

module _ {S : Type 0} (sys : System S) where
  -- The removal of the old configuration.
  unfoldable pub remove_old : InterfaceData → S → Err × S
  remove_old i s =
      if is_default i
      then (none, s)
      else if contains i.network_file user_folder
      then sys.fs.remove i.network_file s
      else (some (codes "No idea what to do with '" ++ i.network_file ++ codes "', sorry"), s)

  -- The end of the function, after the file is written. The restart's error is returned.
  unfoldable pub restart : Bytes → S → Reply × S
  restart iface s =
      let (err, s1) = sys.db.restart_networkd s in
      let said : Bytes = elim err [
        | some e ↦ configuring iface ++ codes "SUCCESS, PLEASE REBOOT NOW (with 'sudo reboot')!\n"
        | none ↦ configuring iface
      ] in
      (
        (
          said
              ++ codes
                  "SUCCESS, using static configuration now!\nPLEASE REBOOT NOW WITH 'sudo reboot'.\n",
          err,
        ),
        s1,
      )

  unfoldable pub install : Bytes → InterfaceData → StaticData → S → Reply × S
  install iface i unit s =
      let (kept, s1) = remove_old i s in
      elim kept [
        | some e ↦ (([], some e), s1)
        | none ↦
            let (unwritten, s2) =
              sys.fs.write_file (unit_path iface) (unit_file unit) unit_mode s1 in
            elim unwritten [ some e ↦ (([], some e), s2) | none ↦ restart iface s2 ]
      ]

  unfoldable pub set_static_config : Bytes → Bytes → Bytes → Bytes → Bytes → S → Reply × S
  set_static_config iface address netmask gateway dns s =
      let (i, err) = sys.nu.get_interface_stats iface s in
      let (mac, no_mac) = sys.nl.get_mac_address iface s in
      elim err [
        | some e ↦ (
          (configuring iface, some (codes "\nERROR: Interface '" ++ iface ++ codes "' not found")),
          s,
        )
        | none ↦ elim no_mac [
          | some e ↦ (([], some e), s)
          | none ↦ elim (check_addresses mac address netmask gateway dns) [
            | invalid e ↦ (([], some e), s)
            | valid unit ↦ install iface i unit s
          ]
        ]
      ]
