-- ===== src/Net/IpText.antt =====
-- ip.String()
use platform_configure.Prelude.{
  ℕ, zero, suc, ◌+◌, ◌-◌, ◌*◌, Bytes, codes, length, List, [], ◌∷◌, ◌++◌, ltb, leb, ◌==◌, ◌&&◌,
  ◌||◌, if◌then◌else◌,
}
use platform_configure.Net.Number.{decimal, hex_group}
use platform_configure.Net.Ip.{to4}

unfoldable pub dotted : Bytes → Bytes
dotted [] = []
dotted (b ∷ []) = decimal b
dotted (b ∷ c ∷ bs) = decimal b ++ codes "." ++ dotted (c ∷ bs)

-- The 16-bit groups of an address.
pairs : Bytes → List ℕ
pairs [] = []
pairs (b ∷ []) = []
pairs (b ∷ c ∷ bs) = (b * 256 + c) ∷ pairs bs

leading_zeros : List ℕ → ℕ
leading_zeros [] = 0
leading_zeros (zero ∷ gs) = suc (leading_zeros gs)
leading_zeros (suc g ∷ gs) = 0

-- The first longest run of zero groups, as its place and length.
longest_run : ℕ → List ℕ → ℕ × ℕ
unfolding leading_zeros
longest_run i [] = (i, 0)
longest_run i (g ∷ gs) =
    let later = longest_run (i + 1) gs in
    let here = leading_zeros (g ∷ gs) in if leb (later.1) here then (i, here) else later

-- Groups from place `i` on; `::` stands for the run of `n` groups at place `at`.
print_groups : ℕ → ℕ → ℕ → List ℕ → ℕ → Bytes
print_groups at n i [] skip = []
print_groups at n i (g ∷ gs) skip =
    let rest = print_groups at n (i + 1) gs (if i == at && ltb 1 n then n - 1 else skip - 1) in
    if ltb 0 skip
    then rest
    else if i == at && ltb 1 n
    then codes "::" ++ rest
    else (if i == 0 || i == at + n && ltb 1 n then [] else codes ":") ++ hex_group g ++ rest

unfoldable pub ip_string : Bytes → Bytes
unfolding dotted decimal pairs longest_run print_groups hex_group to4
ip_string ip =
    let (at, n) = longest_run 0 (pairs ip) in
    if length ip == 0
    then codes "<nil>"
    else if length (to4 ip) == 4
    then dotted (to4 ip)
    else if length ip == 16
    then print_groups at n 0 (pairs ip) 0
    else codes "?"
