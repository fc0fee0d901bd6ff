-- ===== src/Prelude/Sort.antt =====
-- sort.Strings: the bytewise order on texts, and sorting by it. Equal texts cannot be told apart,
-- so every correct sort returns the list that this insertion sort returns.
use mathlib.Core.Path.{◌≡◌, refl}
use mathlib.Core.Logic.{inl, inr}
use mathlib.Core.Bool.{Bool, true, false, ◌||◌}
use mathlib.Core.List.{List, [], ◌∷◌, ◌++◌, Perm}
use mathlib.Core.List.Perm
use native.Mathlib.Omega.{arith}
use platform_configure.Prelude.Compare.{ltb, ◌==◌, Bool-cases, if◌then◌else◌}
use platform_configure.Prelude.Lists.{length, All, All-map, of_All-append}
use platform_configure.Prelude.Text.{Bytes, bytes_eq, member}

-- Go's `a <= b` on strings: bytewise, a proper prefix first.
unfoldable pub leb_bytes : Bytes → Bytes → Bool
leb_bytes [] ys = true
leb_bytes (x ∷ xs) [] = false
leb_bytes (x ∷ xs) (y ∷ ys) = if ltb x y then true else if x == y then leb_bytes xs ys else false

abbrev pub LeBytes : Bytes → Bytes → Type 0
LeBytes a b = leb_bytes a b ≡ true

insert : Bytes → List Bytes → List Bytes
insert s [] = s ∷ []
insert s (t ∷ ts) = if leb_bytes s t then s ∷ t ∷ ts else t ∷ insert s ts

unfoldable pub sort_strings : List Bytes → List Bytes
unfolding insert leb_bytes
sort_strings [] = []
sort_strings (s ∷ ss) = insert s (sort_strings ss)

-- Every item is at most each later one.
abbrev pub IsSorted : List Bytes → Type 0
IsSorted [] = Unit
IsSorted (s ∷ ss) = All (LeBytes s) ss × IsSorted ss

pub leb_bytes_refl : (a : Bytes) → LeBytes a a
unfolding leb_bytes
leb_bytes_refl [] = refl
leb_bytes_refl (x ∷ xs) = ground (arith, leb_bytes_refl xs)

pub leb_bytes_trans : (a b c : Bytes) → LeBytes a b → LeBytes b c → LeBytes a c
unfolding leb_bytes
leb_bytes_trans [] b c h k = refl
leb_bytes_trans (x ∷ xs) [] c h k = cc
leb_bytes_trans (x ∷ xs) (y ∷ ys) [] h k = cc
leb_bytes_trans (x ∷ xs) (y ∷ ys) (z ∷ zs) h k = ground (arith, leb_bytes_trans xs ys zs)

pub leb_bytes_total : (a b : Bytes) → leb_bytes a b ≡ false → LeBytes b a
unfolding leb_bytes
leb_bytes_total [] b h = cc
leb_bytes_total (x ∷ xs) [] h = refl
leb_bytes_total (x ∷ xs) (y ∷ ys) h = ground (arith, leb_bytes_total xs ys)

pub leb_bytes_antisymm : (a b : Bytes) → LeBytes a b → LeBytes b a → a ≡ b
unfolding leb_bytes
leb_bytes_antisymm [] [] h k = refl
leb_bytes_antisymm [] (y ∷ ys) h k = cc
leb_bytes_antisymm (x ∷ xs) [] h k = cc
leb_bytes_antisymm (x ∷ xs) (y ∷ ys) h k = ground (arith, leb_bytes_antisymm xs ys)

All-insert {κ} :
    (P : Bytes → Type κ) (s : Bytes) (ts : List Bytes) → P s → All P ts → All P (insert s ts)
unfolding insert
All-insert P s [] ps h = (ps, tt)
All-insert P s (t ∷ ts) ps h = elim (Bool-cases (leb_bytes s t)) [
  | inl e ↦ rw e (ps, h)
  | inr e ↦ rw e (h.0, All-insert P s ts ps h.1)
]

insert-IsSorted : (s : Bytes) (ts : List Bytes) → IsSorted ts → IsSorted (insert s ts)
unfolding insert
insert-IsSorted s [] h = (tt, tt)
insert-IsSorted s (t ∷ ts) h = elim (Bool-cases (leb_bytes s t)) [
  | inl e ↦ rw e ((e, All-map (LeBytes t) (LeBytes s) (λ u k. leb_bytes_trans s t u e k) ts h.0), h)
  | inr e ↦ rw e (All-insert (LeBytes t) s ts (leb_bytes_total s t e) h.0, insert-IsSorted s ts h.1)
]

-- Sorting puts the texts in order.
pub sort_strings-IsSorted : (ss : List Bytes) → IsSorted (sort_strings ss)
unfolding sort_strings
sort_strings-IsSorted [] = tt
sort_strings-IsSorted (s ∷ ss) = insert-IsSorted s (sort_strings ss) (sort_strings-IsSorted ss)

insert-perm : (s : Bytes) (ts : List Bytes) → Perm (insert s ts) (s ∷ ts)
unfolding insert
insert-perm s [] = Perm.refl _
insert-perm s (t ∷ ts) = elim (Bool-cases (leb_bytes s t)) [
  | inl e ↦ rw e (Perm.refl _)
  | inr e ↦ rw e (Perm.trans (Perm.cons t (insert-perm s ts)) (Perm.swap s t ts))
]

-- Sorting neither adds nor loses a text.
pub sort_strings-perm : (ss : List Bytes) → Perm (sort_strings ss) ss
unfolding sort_strings
sort_strings-perm [] = Perm.refl _
sort_strings-perm (s ∷ ss) =
    Perm.trans (insert-perm s (sort_strings ss)) (Perm.cons s (sort_strings-perm ss))

length-insert : (s : Bytes) (ts : List Bytes) → length (insert s ts) ≡ length (s ∷ ts)
unfolding insert
length-insert s [] = refl
length-insert s (t ∷ ts) = ground (arith, length-insert s ts)

pub length-sort_strings : (ss : List Bytes) → length (sort_strings ss) ≡ length ss
unfolding sort_strings
length-sort_strings [] = refl
length-sort_strings (s ∷ ss) =
    omega (arith, length-insert s (sort_strings ss), length-sort_strings ss)

pub All-sort_strings {κ} :
    (P : Bytes → Type κ) (ss : List Bytes) → All P ss → All P (sort_strings ss)
unfolding sort_strings
All-sort_strings P [] h = tt
All-sort_strings P (s ∷ ss) h = All-insert P s (sort_strings ss) h.0 (All-sort_strings P ss h.1)

of_All-insert {κ} :
    (P : Bytes → Type κ) (s : Bytes) (ts : List Bytes) → All P (insert s ts) → P s × All P ts
unfolding insert
of_All-insert P s [] h = (h.0, tt)
of_All-insert P s (t ∷ ts) h = elim (Bool-cases (leb_bytes s t)) [
  | inl e ↦ let k : All P (s ∷ t ∷ ts) = rw e at h in k
  | inr e ↦
      let k : All P (t ∷ insert s ts) = rw e at h in
      let (ps, rest) = of_All-insert P s ts k.1 in (ps, (k.0, rest))
]

pub of_All-sort_strings {κ} :
    (P : Bytes → Type κ) (ss : List Bytes) → All P (sort_strings ss) → All P ss
unfolding sort_strings
of_All-sort_strings P [] h = tt
of_All-sort_strings P (s ∷ ss) h =
    let (ps, rest) = of_All-insert P s (sort_strings ss) h in (ps, of_All-sort_strings P ss rest)

-- In a sorted list whatever stands in front is at most what stands behind.
pub IsSorted-append :
    (xs ys : List Bytes)
    → IsSorted (xs ++ ys)
    → All (λ x. All (LeBytes x) ys) xs × IsSorted xs × IsSorted ys
IsSorted-append [] ys h = (tt, tt, h)
IsSorted-append (x ∷ xs) ys h =
    let (cross, hx, hy) = IsSorted-append xs ys h.1 in
    let (mine, theirs) = of_All-append (LeBytes x) xs ys h.0 in ((theirs, cross), (mine, hx), hy)

-- A common prefix does not matter to the order.
pub leb_bytes-append : (p a b : Bytes) → leb_bytes (p ++ a) (p ++ b) ≡ leb_bytes a b
unfolding leb_bytes
leb_bytes-append [] a b = refl
leb_bytes-append (c ∷ p) a b = ground (arith, leb_bytes-append p a b)

member-insert :
    (q s : Bytes) (ts : List Bytes) → member q (insert s ts) ≡ (bytes_eq s q || member q ts)
unfolding insert
member-insert q s [] = refl
member-insert q s (t ∷ ts) = ground (arith, member-insert q s ts)

-- Sorting keeps the members.
pub member-sort_strings : (q : Bytes) (ss : List Bytes) → member q (sort_strings ss) ≡ member q ss
unfolding sort_strings
member-sort_strings q [] = refl
member-sort_strings q (s ∷ ss) =
    ground (arith, member-insert q s (sort_strings ss), member-sort_strings q ss)
