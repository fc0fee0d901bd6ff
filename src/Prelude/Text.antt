-- ===== src/Prelude/Text.antt =====
-- Text as Go has it: a sequence of bytes. The functions of package strings that the tools call.
use Prim.Native.Nat.{ℕ}
use Prim.Native.Char.{code}
use Prim.Native.String.{String}
use mathlib.Core.Path.{◌≡◌, refl, ap}
use mathlib.Core.Logic.{◌↔◌}
use mathlib.Core.Bool.{Bool, true, false, not, ◌&&◌, ◌||◌}
use mathlib.Core.Option.{Option}
use mathlib.Core.List.{List, [], ◌∷◌, ◌++◌, reverse, append-nil, append_assoc}
use native.Mathlib.Omega.{arith}
use platform_configure.Prelude.Compare.{◌==◌, if◌then◌else◌}

abbrev pub Bytes : Type 0
Bytes = List ℕ

-- A Go `error`: nil, or what `Error()` returns.
abbrev pub Err : Type 0
Err = Option Bytes

-- The code points of a literal; these are its bytes, since every literal here is ASCII.
abbrev pub codes : String → Bytes
codes String.[] = []
codes (String.◌∷◌ c s) = code c ∷ codes s

-- `a == b` on strings.
unfoldable pub bytes_eq : Bytes → Bytes → Bool
bytes_eq [] [] = true
bytes_eq [] (y ∷ ys) = false
bytes_eq (x ∷ xs) [] = false
bytes_eq (x ∷ xs) (y ∷ ys) = x == y && bytes_eq xs ys

-- strings.HasPrefix(s, prefix)
unfoldable pub has_prefix : Bytes → Bytes → Bool
has_prefix s [] = true
has_prefix [] (p ∷ ps) = false
has_prefix (c ∷ s) (p ∷ ps) = c == p && has_prefix s ps

-- strings.HasSuffix(s, suffix)
unfoldable pub has_suffix : Bytes → Bytes → Bool
unfolding bytes_eq
has_suffix [] suffix = bytes_eq [] suffix
has_suffix (c ∷ s) suffix = bytes_eq (c ∷ s) suffix || has_suffix s suffix

-- strings.Contains(s, part)
unfoldable pub contains : Bytes → Bytes → Bool
unfolding has_prefix
contains [] part = has_prefix [] part
contains (c ∷ s) part = has_prefix (c ∷ s) part || contains s part

-- strings.Replace(s, old, new, -1) for a single byte `old` and a single byte `new`
unfoldable pub replace_all : Bytes → ℕ → ℕ → Bytes
replace_all [] old new = []
replace_all (c ∷ s) old new = (if c == old then new else c) ∷ replace_all s old new

split_at : ℕ → Bytes → Bytes → List Bytes
split_at sep [] cur = cur ∷ []
split_at sep (c ∷ s) cur = elim (c == sep) [
  | true ↦ cur ∷ split_at sep s []
  | false ↦ split_at sep s (cur ++ c ∷ [])
]

-- strings.Split(s, sep) for a single byte `sep`
unfoldable pub split : Bytes → ℕ → List Bytes
unfolding split_at
split s sep = split_at sep s []

trim_left : Bytes → ℕ → Bytes
trim_left [] cut = []
trim_left (c ∷ s) cut = if c == cut then trim_left s cut else c ∷ s

-- strings.Trim(s, cutset) for a single byte
unfoldable pub trim : Bytes → ℕ → Bytes
unfolding trim_left
trim s cut = reverse (trim_left (reverse (trim_left s cut)) cut)

pub bytes_eq_refl : (a : Bytes) → bytes_eq a a ≡ true
unfolding bytes_eq
bytes_eq_refl [] = refl
bytes_eq_refl (x ∷ xs) = ground (arith, bytes_eq_refl xs)

pub eq_of_bytes_eq : (a b : Bytes) → bytes_eq a b ≡ true → a ≡ b
unfolding bytes_eq
eq_of_bytes_eq [] [] h = refl
eq_of_bytes_eq [] (y ∷ ys) h = cc
eq_of_bytes_eq (x ∷ xs) [] h = cc
eq_of_bytes_eq (x ∷ xs) (y ∷ ys) h = ground (arith, eq_of_bytes_eq xs ys)

pub bytes_eq_iff : (a b : Bytes) → (bytes_eq a b ≡ true) ↔ (a ≡ b)
bytes_eq_iff a b = (eq_of_bytes_eq a b, λ p. cc (bytes_eq_refl a, ap (bytes_eq a) p))

-- Whether a text is in a list.
abbrev pub member : Bytes → List Bytes → Bool
member q [] = false
member q (x ∷ xs) = bytes_eq x q || member q xs

pub member-append :
    (q : Bytes) (xs ys : List Bytes) → member q (xs ++ ys) ≡ (member q xs || member q ys)
member-append q [] ys = refl
member-append q (x ∷ xs) ys = ground (arith, member-append q xs ys)

pub has_suffix_self : (s : Bytes) → has_suffix s s ≡ true
unfolding has_suffix
has_suffix_self [] = refl
has_suffix_self (c ∷ s) = ground (arith, bytes_eq_refl (c ∷ s))

pub has_prefix-append : (p s : Bytes) → has_prefix (p ++ s) p ≡ true
unfolding has_prefix
has_prefix-append [] s = refl
has_prefix-append (c ∷ p) s = ground (arith, has_prefix-append p s)

-- The byte is not in the text.
abbrev pub avoids : ℕ → Bytes → Bool
avoids c [] = true
avoids c (x ∷ s) = not (x == c) && avoids c s

split_at-append :
    (sep : ℕ) (x rest cur : Bytes)
    → avoids sep x ≡ true
    → split_at sep (x ++ sep ∷ rest) cur ≡ (cur ++ x) ∷ split_at sep rest []
unfolding split_at
split_at-append sep [] rest cur h = ground (arith, append-nil cur)
split_at-append sep (c ∷ x) rest cur h =
    ground (arith, split_at-append sep x rest (cur ++ c ∷ []), append_assoc cur (c ∷ []) x)

split_at-avoids :
    (sep : ℕ) (x cur : Bytes) → avoids sep x ≡ true → split_at sep x cur ≡ (cur ++ x) ∷ []
unfolding split_at
split_at-avoids sep [] cur h = ground (arith, append-nil cur)
split_at-avoids sep (c ∷ x) cur h =
    ground (arith, split_at-avoids sep x (cur ++ c ∷ []), append_assoc cur (c ∷ []) x)

pub split-append :
    (x rest : Bytes) (sep : ℕ)
    → avoids sep x ≡ true
    → split (x ++ sep ∷ rest) sep ≡ x ∷ split rest sep
unfolding split
split-append x rest sep h = split_at-append sep x rest [] h

pub split-avoids : (x : Bytes) (sep : ℕ) → avoids sep x ≡ true → split x sep ≡ x ∷ []
unfolding split
split-avoids x sep h = split_at-avoids sep x [] h
