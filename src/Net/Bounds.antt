-- ===== src/Net/Bounds.antt =====
-- The size of what `parse_ip` returns.
use platform_configure.Prelude.{
  ℕ, zero, suc, ◌+◌, ◌-◌, ◌/◌, ◌%◌, Bytes, ◌≡◌, ◌⊎◌, inr, refl, ap, split, length, length-append,
  take, drop, take-append-drop, replicate, Bool, true, false, ◌&&◌, List, [], ◌∷◌, ◌++◌, Option,
  none, some, ltb, leb, arith,
}
use platform_configure.Net.Ip.{
  octet, octets, parse_ipv4, xtoi, finish, with_ipv4, groups, parse_ipv6, choose, parse_ip,
}

-- Every item is a byte.
abbrev pub small : Bytes → Bool
small [] = true
small (b ∷ bs) = ltb b 256 && small bs

abbrev pub IsIp : Bytes → Type 0
IsIp ip = (small ip ≡ true) × ((length ip ≡ 16) ⊎ (ip ≡ []))

small-append : (xs ys : Bytes) → small xs ≡ true → small ys ≡ true → small (xs ++ ys) ≡ true
small-append [] ys h k = k
small-append (x ∷ xs) ys h k = ground (arith, small-append xs ys)

small-take : (n : ℕ) (xs : Bytes) → small xs ≡ true → small (take n xs) ≡ true
small-take zero xs h = refl
small-take (suc n) [] h = refl
small-take (suc n) (x ∷ xs) h = ground (arith, small-take n xs)

pub small-drop : (n : ℕ) (xs : Bytes) → small xs ≡ true → small (drop n xs) ≡ true
small-drop zero xs h = h
small-drop (suc n) [] h = refl
small-drop (suc n) (x ∷ xs) h = small-drop n xs (ground arith)

small-replicate : (n : ℕ) → small (replicate n 0) ≡ true
small-replicate zero = refl
small-replicate (suc n) = small-replicate n

length-replicate : (n : ℕ) → length {A = ℕ} (replicate n 0) ≡ n
length-replicate zero = refl
length-replicate (suc n) = omega (arith, length-replicate n)

abbrev small_number : Option ℕ → Bool
small_number none = true
small_number (some n) = ltb n 256

abbrev small_numbers : Option Bytes → Bool
small_numbers none = true
small_numbers (some ns) = small ns

octet-small : (p : Bytes) → small_number (octet p) ≡ true
unfolding octet
octet-small [] = refl
octet-small (c ∷ s) = ground arith

octets-small : (ps : List Bytes) → small_numbers (octets ps) ≡ true
unfolding octets
octets-small [] = refl
octets-small (p ∷ ps) = ground (arith, octet-small p, octets-small ps)

parse_ipv4-IsIp : (s : Bytes) → IsIp (parse_ipv4 s)
unfolding parse_ipv4
parse_ipv4-IsIp s = ground (arith, octets-small (split s 46))

length-around :
    (e m : ℕ) (ip : Bytes) → length (take e ip ++ replicate m 0 ++ drop e ip) ≡ length ip + m
length-around e m ip = omega (
  arith,
  length-append (take e ip ++ replicate m 0) (drop e ip),
  length-append (take e ip) (replicate m 0),
  length-append (take e ip) (drop e ip),
  length-replicate m,
  ap length (take-append-drop e ip),
)

small-around :
    (e m : ℕ) (ip : Bytes)
    → small ip ≡ true
    → small (take e ip ++ replicate m 0 ++ drop e ip) ≡ true
small-around e m ip h =
    small-append (take e ip ++ replicate m 0) (drop e ip)
      (small-append (take e ip) (replicate m 0) (small-take e ip h) (small-replicate m))
      (small-drop e ip h)

finish-IsIp : (ip : Bytes) (ellipsis : Option ℕ) → small ip ≡ true → IsIp (finish ip ellipsis)
unfolding finish
finish-IsIp ip none h = ground arith
finish-IsIp ip (some e) h =
    ground (arith, length-around e (16 - length ip) ip, small-around e (16 - length ip) ip)

with_ipv4-IsIp :
    (s ip : Bytes) (ellipsis : Option ℕ) → small ip ≡ true → IsIp (with_ipv4 s ip ellipsis)
unfolding with_ipv4
with_ipv4-IsIp s ip ellipsis h = ground (
  arith,
  finish-IsIp (ip ++ drop 12 (parse_ipv4 s)) ellipsis,
  small-append ip (drop 12 (parse_ipv4 s)) h,
  small-drop 12 (parse_ipv4 s),
  parse_ipv4-IsIp s,
)

-- A group within bounds makes two bytes.
group-small :
    (n : ℕ) (ip : Bytes)
    → small ip ≡ true
    → leb n 65535 ≡ true
    → small (ip ++ n / 256 ∷ n % 256 ∷ []) ≡ true
group-small n ip h k = small-append ip (n / 256 ∷ n % 256 ∷ []) h (ground arith)

groups-IsIp :
    (k : ℕ) (s ip : Bytes) (ellipsis : Option ℕ) → small ip ≡ true → IsIp (groups k s ip ellipsis)
unfolding groups
groups-IsIp zero s ip ellipsis h = ground (arith, finish-IsIp ip ellipsis)
groups-IsIp (suc k) s ip ellipsis h = go found_all refl rest refl (groups-IsIp k)
  where
    n : ℕ
    n = (xtoi 0 false s).0

    found_all : Bool
    found_all = (xtoi 0 false s).1 && leb n 65535

    rest : Bytes
    rest = (xtoi 0 false s).2

    ip1 : Bytes
    ip1 = ip ++ n / 256 ∷ n % 256 ∷ []

    go :
        (b : Bool)
        → found_all ≡ b
        → (r : Bytes) → rest ≡ r
        → ((s1 ip2 : Bytes) (later : Option ℕ) → small ip2 ≡ true → IsIp (groups k s1 ip2 later))
        → IsIp (groups (suc k) s ip ellipsis)
    go false p r q rec = ground arith
    go true p [] q rec = ground (arith, finish-IsIp ip1 ellipsis, group-small n ip h)
    go true p (c ∷ []) q rec = ground (arith, with_ipv4-IsIp s ip ellipsis h)
    go true p (c ∷ d ∷ []) q rec = ground (
      arith,
      with_ipv4-IsIp s ip ellipsis h,
      group-small n ip h,
      rec (d ∷ []) ip1 ellipsis,
      finish-IsIp ip1 (some (length ip1)),
    )
    go true p (c ∷ d ∷ x ∷ s2) q rec = ground (
      arith,
      with_ipv4-IsIp s ip ellipsis h,
      group-small n ip h,
      rec (d ∷ x ∷ s2) ip1 ellipsis,
      rec (x ∷ s2) ip1 (some (length ip1)),
    )

parse_ipv6-IsIp : (s : Bytes) → IsIp (parse_ipv6 s)
unfolding parse_ipv6
parse_ipv6-IsIp [] = groups-IsIp 8 [] [] none refl
parse_ipv6-IsIp (c ∷ []) = groups-IsIp 8 (c ∷ []) [] none refl
parse_ipv6-IsIp (c ∷ d ∷ []) = ground (arith, groups-IsIp 8 (c ∷ d ∷ []) [] none)
parse_ipv6-IsIp (c ∷ d ∷ x ∷ s) =
    ground (arith, groups-IsIp 8 (x ∷ s) [] (some 0), groups-IsIp 8 (c ∷ d ∷ x ∷ s) [] none)

choose-IsIp : (whole s : Bytes) → IsIp (choose whole s)
unfolding choose
choose-IsIp whole [] = (refl, inr refl)
choose-IsIp whole (c ∷ s) =
    ground (arith, parse_ipv4-IsIp whole, parse_ipv6-IsIp whole, choose-IsIp whole s)

-- What is read is nil, or sixteen bytes.
pub parse_ip-IsIp : (s : Bytes) → IsIp (parse_ip s)
unfolding parse_ip
parse_ip-IsIp s = choose-IsIp s s
