-- ===== src/Netconf/Static/Again.antt =====
-- What netconf has written into a unit, given to it again.
use platform_configure.Prelude.{
  Bytes, ◌≡◌, ◌≢◌, refl, ap, ◌∙◌, split, trim, codes, [], ◌∷◌, ◌++◌, arith,
}
use platform_configure.Net.Ip.{parse_ip}
use platform_configure.Net.Network.{IpNet}
use platform_configure.Net.RoundTrip.{parse_ip-ip_string}
use platform_configure.Netconf.Checked.{valid, >>=-eq-valid, >>=-valid}
use platform_configure.Netconf.Static.{
  StaticData, parse_map, require_ip, dns_list, check_gateway, check_addresses,
}
use platform_configure.Netconf.Static.Checks.{check_addresses_ok, check_gateway_ok}

require_ip-valid : (ip e : Bytes) → ip ≢ [] → require_ip ip e ≡ valid ip
unfolding require_ip
require_ip-valid [] e ne = absurd (ne refl)
require_ip-valid (b ∷ bs) e ne = refl

-- The tests on the gateway look at the address that its text stands for.
check_gateway-parse_ip :
    (net : IpNet) (gateway other : Bytes) {gw : Bytes}
    → parse_ip other ≡ parse_ip gateway
    → check_gateway net gateway ≡ valid gw
    → check_gateway net other ≡ valid gw
unfolding check_gateway
check_gateway-parse_ip net gateway other {gw} same h =
    let (inside, ne, e) = check_gateway_ok net gateway h in
    let message = codes "'" ++ other ++ codes "' (gateway) is not a valid IP address" in
    ground (arith, require_ip-valid (parse_ip gateway) message ne)

-- The gateway that is written into a unit stands for the one that was given, and when it is given
-- in its place, with all else the same, the tests pass again and make the same unit.
pub check_addresses_again :
    (mac address netmask gateway dns : Bytes) (unit : StaticData)
    → check_addresses mac address netmask gateway dns ≡ valid unit
    → (parse_ip unit.gateway ≡ parse_ip gateway)
      × (check_addresses mac address netmask unit.gateway dns ≡ valid unit)
unfolding check_addresses
check_addresses_again mac address netmask gateway dns unit h =
    let (mask, hm, h1) = >>=-eq-valid (parse_map netmask) _ h in
    let (ip, ha, h2) = >>=-eq-valid (require_ip (parse_ip address) _) _ h1 in
    let net : IpNet = record { ip = ip; mask = mask } in
    let (gw, hg, h3) = >>=-eq-valid (check_gateway net gateway) _ h2 in
    let (servers, hs, h4) = >>=-eq-valid (dns_list (split (trim dns 32) 44)) _ h3 in
    let static = check_addresses_ok mac address netmask gateway dns unit h in
    let same : parse_ip unit.gateway ≡ parse_ip gateway =
      ap parse_ip static.gateway_is ∙ parse_ip-ip_string gateway static.gateway_v4 in
    (
      same,
      >>=-valid _ hm
          ∙ >>=-valid _ ha
          ∙ >>=-valid _ (check_gateway-parse_ip net gateway unit.gateway same hg)
          ∙ >>=-valid _ hs
          ∙ h4,
    )
