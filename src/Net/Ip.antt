-- ===== src/Net/Ip.antt =====
-- net.ParseIP, as in the Go releases before 1.17: leading zeros are accepted. An IP is a slice of
-- bytes; nil is the empty one, and an IPv4 address is kept in its 16-byte form.
use platform_configure.Prelude.{
  ℕ, zero, suc, ◌+◌, ◌-◌, ◌*◌, ◌/◌, ◌%◌, Bytes, bytes_eq, split, length, take, drop, replicate,
  Bool, true, false, ◌&&◌, ◌||◌, List, [], ◌∷◌, ◌++◌, Option, none, some, ltb, leb, ◌==◌,
  if◌then◌else◌,
}
use platform_configure.Net.Number.{is_digit, decimal_value}

-- The prefix of an IPv4 address in 16-byte form.
abbrev pub v4_in_v6 : Bytes
v4_in_v6 = replicate 10 0 ++ 255 ∷ 255 ∷ []

-- One of the four numbers between the dots.
unfoldable pub octet : Bytes → Option ℕ
octet [] = none
octet (c ∷ s) = elim (decimal_value 0 (c ∷ s)) [
  | none ↦ none
  | some n ↦ if leb n 255 then some n else none
]

unfoldable pub octets : List Bytes → Option Bytes
octets [] = some []
octets (p ∷ ps) =
    let rest = octets ps in
    elim (octet p) [ none ↦ none | some n ↦ elim rest [ none ↦ none | some ns ↦ some (n ∷ ns) ] ]

-- `parseIPv4`
unfoldable pub parse_ipv4 : Bytes → Bytes
unfolding octets octet decimal_value split
parse_ipv4 s = elim (octets (split s 46)) [
  | none ↦ []
  | some ns ↦ if length ns == 4 then v4_in_v6 ++ ns else []
]

unfoldable pub hex_value : ℕ → Option ℕ
unfolding is_digit
hex_value c =
    if is_digit c
    then some (c - 48)
    else if leb 97 c && leb c 102
    then some (c - 87)
    else if leb 65 c && leb c 70
    then some (c - 55)
    else none

-- `xtoi`: the number that the leading hexadecimal digits spell, whether there are any, and the
-- text behind them. The number is only looked at where it is at most 65535.
unfoldable pub xtoi : ℕ → Bool → Bytes → ℕ × Bool × Bytes
xtoi n some_digit [] = (n, some_digit, [])
xtoi n some_digit (c ∷ s) = elim (hex_value c) [
  | none ↦ (n, some_digit, c ∷ s)
  | some d ↦ xtoi (n * 16 + d) true s
]

-- After the loop: the entire text is used, and the ellipsis stands for at least one group.
unfoldable pub finish : Bytes → Option ℕ → Bytes
finish ip ellipsis = elim ellipsis [
  | none ↦ if length ip == 16 then ip else []
  | some e ↦
      if ltb (length ip) 16 then take e ip ++ replicate (16 - length ip) 0 ++ drop e ip else []
]

-- The last four bytes, of the embedded IPv4 address.
unfoldable pub with_ipv4 : Bytes → Bytes → Option ℕ → Bytes
unfolding finish
with_ipv4 s ip ellipsis =
    let v4 = parse_ipv4 s in
    let whole = finish (ip ++ drop 12 v4) ellipsis in
    if bytes_eq v4 [] || ltb 12 (length ip)
    then []
    else elim ellipsis [ none ↦ if length ip == 12 then whole else [] | some e ↦ whole ]

-- The loop of `parseIPv6`, over the bytes written so far and the place of the ellipsis. The first
-- number is the groups that may still come.
unfoldable pub groups : ℕ → Bytes → Bytes → Option ℕ → Bytes
unfolding xtoi hex_value finish with_ipv4
groups zero s ip ellipsis = if bytes_eq s [] then finish ip ellipsis else []
groups (suc k) s ip ellipsis =
    let (n, found, rest) = xtoi 0 false s in
    let ip1 = ip ++ n / 256 ∷ n % 256 ∷ [] in
    elim (found && leb n 65535) [
      | false ↦ []
      | true ↦ elim rest [
        | [] ↦ finish ip1 ellipsis
        | c ∷ [] ↦ if c == 46 then with_ipv4 s ip ellipsis else []
        | c ∷ d ∷ s1 ↦ elim (c == 46) [
          | true ↦ with_ipv4 s ip ellipsis
          | false ↦ elim (c == 58) [
            | false ↦ []
            | true ↦ elim (d == 58) [
              | false ↦ groups k (d ∷ s1) ip1 ellipsis
              | true ↦ elim ellipsis [
                | some e ↦ []
                | none ↦ elim s1 [
                  | [] ↦ finish ip1 (some (length ip1))
                  | x ∷ s2 ↦ groups k (x ∷ s2) ip1 (some (length ip1))
                ]
              ]
            ]
          ]
        ]
      ]
    ]

-- `parseIPv6`
unfoldable pub parse_ipv6 : Bytes → Bytes
unfolding groups
parse_ipv6 [] = groups 8 [] [] none
parse_ipv6 (c ∷ []) = groups 8 (c ∷ []) [] none
parse_ipv6 (c ∷ d ∷ []) =
    if c == 58 && d == 58 then replicate 16 0 else groups 8 (c ∷ d ∷ []) [] none
parse_ipv6 (c ∷ d ∷ x ∷ s) =
    if c == 58 && d == 58 then groups 8 (x ∷ s) [] (some 0) else groups 8 (c ∷ d ∷ x ∷ s) [] none

-- The first dot or colon decides what is tried.
unfoldable pub choose : Bytes → Bytes → Bytes
unfolding parse_ipv4 parse_ipv6
choose whole [] = []
choose whole (c ∷ s) =
    if c == 46 then parse_ipv4 whole else if c == 58 then parse_ipv6 whole else choose whole s

-- net.ParseIP(s)
unfoldable pub parse_ip : Bytes → Bytes
unfolding choose
parse_ip s = choose s s

-- ip.To4(); nil where there is none
unfoldable pub to4 : Bytes → Bytes
to4 ip =
    if length ip == 4
    then ip
    else if length ip == 16 && bytes_eq (take 12 ip) v4_in_v6
    then drop 12 ip
    else []
