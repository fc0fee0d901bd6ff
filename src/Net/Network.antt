-- ===== src/Net/Network.antt =====
-- net.IPNet: an address with a mask.
use Prim.Native.Nat.{bit_and}
use platform_configure.Prelude.{
  ℕ, ◌+◌, Bytes, codes, length, drop, Bool, true, false, ◌&&◌, [], ◌∷◌, ◌++◌, Option, none, some,
  ◌==◌, if◌then◌else◌,
}
use platform_configure.Net.Number.{decimal, hex_byte}
use platform_configure.Net.Ip.{to4}
use platform_configure.Net.IpText.{ip_string}

pub record IpNet : Type 0 where
  pub ip : Bytes
  pub mask : Bytes

-- `networkNumberAndMask`, with its two slices nil together
unfoldable pub network_number_and_mask : IpNet → Bytes × Bytes
network_number_and_mask n =
    let ip = (if length (to4 n.ip) == 4 then to4 n.ip else n.ip) in
    if length ip == 4
    then (if length n.mask == 4
        then (ip, n.mask)
        else if length n.mask == 16
        then (ip, drop 12 n.mask)
        else ([], []))
    else if length ip == 16
    then (if length n.mask == 16 then (ip, n.mask) else ([], []))
    else ([], [])

-- The loop of `Contains`.
unfoldable pub same_network : Bytes → Bytes → Bytes → Bool
same_network (a ∷ nn) (m ∷ mask) (b ∷ ip) = bit_and a m == bit_and b m && same_network nn mask ip
same_network [] mask [] = true
same_network nn mask ip = false

-- n.Contains(ip)
unfoldable pub contains_ip : IpNet → Bytes → Bool
contains_ip n ip =
    let (nn, mask) = network_number_and_mask n in
    let x = (if length (to4 ip) == 4 then to4 ip else ip) in
    length x == length nn && same_network nn mask x

-- The leading ones of a mask's byte, if zeros follow.
ones : ℕ → Option ℕ
ones v =
    if v == 0
    then some 0
    else if v == 128
    then some 1
    else if v == 192
    then some 2
    else if v == 224
    then some 3
    else if v == 240
    then some 4
    else if v == 248
    then some 5
    else if v == 252
    then some 6
    else if v == 254
    then some 7
    else none

all_zero : Bytes → Bool
all_zero [] = true
all_zero (v ∷ mask) = v == 0 && all_zero mask

-- `simpleMaskLength`; `none` is -1
unfoldable pub simple_mask_length : Bytes → Option ℕ
unfolding ones all_zero
simple_mask_length [] = some 0
simple_mask_length (v ∷ mask) =
    let more = simple_mask_length mask in
    if v == 255
    then elim more [ none ↦ none | some n ↦ some (8 + n) ]
    else if all_zero mask
    then ones v
    else none

hex_string : Bytes → Bytes
hex_string [] = []
hex_string (b ∷ bs) = hex_byte b ++ hex_string bs

-- n.String()
unfoldable pub ipnet_string : IpNet → Bytes
unfolding hex_string
ipnet_string n =
    let (nn, mask) = network_number_and_mask n in
    if length nn == 0 then codes "<nil>" else elim (simple_mask_length mask) [
      | none ↦ ip_string nn ++ codes "/" ++ hex_string mask
      | some l ↦ ip_string nn ++ codes "/" ++ decimal l
    ]
