-- ===== src/Tests/Addresses.antt =====
-- Addresses and networks in text, at the forms that Go's documentation gives.
use platform_configure.Prelude.{Bytes, bytes_eq, codes, ◌≡◌, refl, [], ◌∷◌, true, false}
use platform_configure.Prelude.Int.{pos, negsuc}
use platform_configure.Net.Number.{number, syntax_error, range_error, atoi, hex_byte, decimal}
use platform_configure.Net.Ip.{parse_ip, to4}
use platform_configure.Net.IpText.{ip_string}
use platform_configure.Net.Network.{
  IpNet, contains_ip, ipnet_string, network_number_and_mask, same_network, simple_mask_length,
}

normal : Bytes → Bytes
unfolding parse_ip ip_string
normal s = ip_string (parse_ip s)

addresses :
    (normal (codes "192.168.023.42") ≡ codes "192.168.23.42")
    × (normal (codes "2001:0DB8:0:0::1") ≡ codes "2001:db8::1")
    × (normal (codes "::") ≡ codes "::")
    × (normal (codes "fe80::") ≡ codes "fe80::")
    × (normal (codes "1:0:0:2:0:0:0:3") ≡ codes "1:0:0:2::3")
    × (normal (codes "1:0:2:3:4:5:6:7") ≡ codes "1:0:2:3:4:5:6:7")
    × (normal (codes "::ffff:10.0.0.1") ≡ codes "10.0.0.1")
    × (normal (codes "64:ff9b::10.0.0.1") ≡ codes "64:ff9b::a00:1")
unfolding normal bytes_eq
addresses = (refl, refl, refl, refl, refl, refl, refl, refl)

not_addresses :
    (parse_ip (codes "256.0.0.1") ≡ [])
    × (parse_ip (codes "1.2.3") ≡ [])
    × (parse_ip (codes "1.2.3.4.5") ≡ [])
    × (parse_ip (codes "1..2.3") ≡ [])
    × (parse_ip (codes "1::2::3") ≡ [])
    × (parse_ip (codes "1:2:3:4:5:6:7::8") ≡ [])
    × (parse_ip (codes "12345::") ≡ [])
    × (parse_ip (codes "host") ≡ [])
unfolding parse_ip bytes_eq
not_addresses = (refl, refl, refl, refl, refl, refl, refl, refl)

numbers :
    (atoi (codes "255") ≡ number (pos 255))
    × (atoi (codes "-1") ≡ number (negsuc 0))
    × (atoi (codes "+7") ≡ number (pos 7))
    × (atoi (codes "7x") ≡ syntax_error)
    × (atoi [] ≡ syntax_error)
    × (atoi (codes "9223372036854775808") ≡ range_error)
unfolding atoi
numbers = (refl, refl, refl, refl, refl, refl)

home : Bytes → IpNet
unfolding parse_ip
home mask = record { ip = parse_ip (codes "192.168.23.42"); mask = mask }

networks :
    (ipnet_string (home (255 ∷ 255 ∷ 255 ∷ 128 ∷ [])) ≡ codes "192.168.23.42/25")
    × (ipnet_string (home (255 ∷ 0 ∷ 255 ∷ 0 ∷ [])) ≡ codes "192.168.23.42/ff00ff00")
    × (contains_ip (home (255 ∷ 255 ∷ 255 ∷ 128 ∷ [])) (parse_ip (codes "192.168.23.45")) ≡ true)
    × (contains_ip (home (255 ∷ 255 ∷ 255 ∷ 128 ∷ [])) (parse_ip (codes "192.168.23.245")) ≡ false)
unfolding home bytes_eq ipnet_string contains_ip network_number_and_mask same_network
    simple_mask_length to4 ip_string hex_byte decimal
networks = (refl, refl, refl, refl)
