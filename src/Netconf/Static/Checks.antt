-- ===== src/Netconf/Static/Checks.antt =====
-- What the tests on the addresses let through.
use platform_configure.Prelude.{
  All, ◌<◌, Bytes, ◌≡◌, ◌≢◌, ap, subst, split, trim, length, List, [], ◌∷◌, true, arith, length-nil,
}
use platform_configure.Net.Ip.{parse_ip, to4}
use platform_configure.Net.IpText.{ip_string}
use platform_configure.Net.Network.{
  IpNet, network_number_and_mask, same_network, contains_ip, ipnet_string,
}
use platform_configure.Netconf.Checked.{valid, >>=-eq-valid}
use platform_configure.Netconf.Static.{
  StaticData, parse_map, require_ip, dns_list, check_gateway, check_addresses,
}
use platform_configure.Netconf.Static.Mask.{parse_map_ok}

to4-length : (ip : Bytes) → length ip ≡ 4 → to4 ip ≡ ip
unfolding to4
to4-length ip h = ground arith

-- With a mask of four bytes, a network that contains an address other than nil is an IPv4
-- network, and the address is an IPv4 address under the same mask.
contains_ip-v4 :
    (ip mask gw : Bytes)
    → length mask ≡ 4
    → gw ≢ []
    → contains_ip (record { ip = ip; mask = mask }) gw ≡ true
    → (length (to4 ip) ≡ 4) × (length (to4 gw) ≡ 4) × (same_network (to4 ip) mask (to4 gw) ≡ true)
unfolding contains_ip network_number_and_mask
contains_ip-v4 ip mask gw m ne h = ground (arith, to4-length ip, to4-length gw, length-nil gw)

-- `servers` are the printed addresses of the texts, each of which is an address.
abbrev pub AreServers : List Bytes → List Bytes → Type 0
AreServers [] servers = servers ≡ []
AreServers (s ∷ ss) [] = ⊥
AreServers (s ∷ ss) (v ∷ vs) =
    (parse_ip (trim s 32) ≢ []) × (v ≡ ip_string (parse_ip (trim s 32))) × AreServers ss vs

pub require_ip_ok : (ip e : Bytes) {a : Bytes} → require_ip ip e ≡ valid a → (ip ≢ []) × (a ≡ ip)
unfolding require_ip
require_ip_ok [] e h = absurd (cc)
require_ip_ok (b ∷ bs) e h = ((λ p. cc), cc)

dns_list_ok : (ss servers : List Bytes) → dns_list ss ≡ valid servers → AreServers ss servers
unfolding dns_list
dns_list_ok [] servers h = cc
dns_list_ok (s ∷ ss) servers h =
    let (ip, first, h1) = >>=-eq-valid (require_ip (parse_ip (trim s 32)) _) _ h in
    let (ips, rest, h2) = >>=-eq-valid (dns_list ss) _ h1 in
    let (some_ip, same) = require_ip_ok (parse_ip (trim s 32)) _ first in
    let e : ip_string ip ∷ ips ≡ servers = cc in
    rw (← e) (some_ip, ap ip_string same, dns_list_ok ss ips rest)

pub check_gateway_ok :
    (net : IpNet) (gateway : Bytes) {gw : Bytes}
    → check_gateway net gateway ≡ valid gw
    → (contains_ip net (parse_ip gateway) ≡ true)
      × (parse_ip gateway ≢ [])
      × (gw ≡ parse_ip gateway)
unfolding check_gateway
check_gateway_ok net gateway {gw} h =
    let inside : contains_ip net (parse_ip gateway) ≡ true = ground arith in
    let (ne, same) = require_ip_ok (parse_ip gateway) _ {a = gw} (rw inside at h) in
    (inside, ne, same)

-- What is known of the data of a unit that passed the tests.
pub record IsStatic (mac address netmask gateway dns : Bytes) (unit : StaticData) : Type 0 where
  pub mask : Bytes
  pub mask_is : parse_map netmask ≡ valid mask
  pub mask_size : (length mask ≡ 4) × All (λ b. b < 256) mask
  pub mac_is : unit.mac ≡ mac
  pub address_v4 : length (to4 (parse_ip address)) ≡ 4
  pub gateway_v4 : length (to4 (parse_ip gateway)) ≡ 4
  pub same : same_network (to4 (parse_ip address)) mask (to4 (parse_ip gateway)) ≡ true
  pub address_is : unit.address ≡ ipnet_string (record { ip = parse_ip address; mask = mask })
  pub gateway_is : unit.gateway ≡ ip_string (parse_ip gateway)
  pub servers : AreServers (split (trim dns 32) 44) unit.dns

-- A unit that passes the tests has the interface's MAC address, an IPv4 address with a mask of four
-- bytes, an IPv4 gateway in the same network, and the printed addresses of the name servers, all of
-- which are addresses.
pub check_addresses_ok :
    (mac address netmask gateway dns : Bytes) (unit : StaticData)
    → check_addresses mac address netmask gateway dns ≡ valid unit
    → IsStatic mac address netmask gateway dns unit
unfolding check_addresses
check_addresses_ok mac address netmask gateway dns unit h =
    let (mask, hm, h1) = >>=-eq-valid (parse_map netmask) _ h in
    let (ip, ha, h2) = >>=-eq-valid (require_ip (parse_ip address) _) _ h1 in
    let (gw, hg, h3) =
      >>=-eq-valid (check_gateway (record { ip = ip; mask = mask }) gateway) _ h2 in
    let (servers, hs, h4) = >>=-eq-valid (dns_list (split (trim dns 32) 44)) _ h3 in
    let (some_address, same_address) = require_ip_ok (parse_ip address) _ ha in
    let (inside, some_gateway, same_gateway) =
      check_gateway_ok (record { ip = ip; mask = mask }) gateway hg in
    let (v4, gateway_v4, same) =
      contains_ip-v4 ip mask (parse_ip gateway) (parse_map_ok netmask mask hm).0 some_gateway
        inside in
    let same_servers : servers ≡ unit.dns = cc in
    record {
      mask = mask;
      mask_is = hm;
      mask_size = parse_map_ok netmask mask hm;
      mac_is = cc;
      address_v4 = rw (← same_address) v4;
      gateway_v4 = gateway_v4;
      same = rw (← same_address) same;
      address_is = cc;
      gateway_is = cc;
      servers = subst (AreServers (split (trim dns 32) 44)) same_servers (dns_list_ok _ servers hs);
    }
