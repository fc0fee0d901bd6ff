-- ===== src/Zfs/Newest/Laws.antt =====
-- What `newest` chooses.
use mathlib.Core.List.{Perm}
use mathlib.Core.List.Perm
use platform_configure.Prelude.{
  ◌≡◌, ◌≢◌, refl, sym, ap, subst, ◌∙◌, Bytes, Err, length, length-nil, All, List, [], ◌∷◌, ◌++◌,
  none, ◌↔◌,
}
use platform_configure.Prelude.Sort.{
  sort_strings, LeBytes, IsSorted, sort_strings-IsSorted, sort_strings-perm, length-sort_strings,
  IsSorted-append,
}
use platform_configure.Zfs.Newest.{labelled, last_two, newest}

-- `to` is a greatest snapshot of the list, and `from` a greatest of the others if there are any.
pub data IsNewest (l : List Bytes) (from to : Bytes) : Type 0 where
  only : from ≡ [] → Perm l (to ∷ []) → IsNewest l from to
  latest :
      (rest : List Bytes)
      → Perm l (rest ++ from ∷ to ∷ [])
      → All (λ s. LeBytes s from) rest
      → LeBytes from to
      → IsNewest l from to

pub last_two_long :
    (s t : Bytes) (ss : List Bytes)
    → (rest : List Bytes) × (from : Bytes) × (to : Bytes) × (s ∷ t ∷ ss ≡ rest ++ from ∷ to ∷ [])
      × (last_two (s ∷ t ∷ ss) ≡ (from, to, none))
unfolding last_two
last_two_long s t [] = ([], s, t, refl, refl)
last_two_long s t (u ∷ ss) =
    let (rest, from, to, e, l) = last_two_long t u ss in (s ∷ rest, from, to, ap (λ r. s ∷ r) e, l)

All-first :
    (xs : List Bytes) (y z : Bytes)
    → All (λ x. All (LeBytes x) (y ∷ z ∷ [])) xs
    → All (λ x. LeBytes x y) xs
All-first [] y z h = tt
All-first (x ∷ xs) y z h = (h.0.0, All-first xs y z h.1)

IsNewest-sorted :
    (l sorted : List Bytes) {from to : Bytes}
    → Perm l sorted
    → IsSorted sorted
    → last_two sorted ≡ (from, to, none)
    → IsNewest l from to
unfolding last_two
IsNewest-sorted l [] p o h = cc
IsNewest-sorted l (s ∷ []) {from} {to} p o h = let e : s ≡ to = cc in only (cc) (rw e at p)
IsNewest-sorted l (s ∷ t ∷ ss) {from} {to} p o h =
    let (rest, from', to', e, k) = last_two_long s t ss in
    let same : ◌≡◌ {A = Bytes × Bytes × Err} (from', to', none) (from, to, none) = sym k ∙ h in
    let e1 : from' ≡ from = cc in
    let e2 : to' ≡ to = cc in
    let shape : ◌≡◌ {A = List Bytes} (s ∷ t ∷ ss) (rest ++ from ∷ to ∷ []) = rw (← e1, ← e2) e in
    let (cross, front, back) = IsSorted-append rest (from ∷ to ∷ []) (subst IsSorted shape o) in
    latest rest (subst (Perm l) shape p) (All-first rest from to cross) back.0.0

-- What `newest` sends is a greatest labelled snapshot of the dataset, incrementally from the
-- greatest of the others; nothing else of the list matters.
pub newest_sound :
    (snapshots : List Bytes) (name label : Bytes) {from to : Bytes}
    → newest snapshots name label ≡ (from, to, none)
    → IsNewest (labelled snapshots name label) from to
unfolding newest
newest_sound snapshots name label h =
    IsNewest-sorted (labelled snapshots name label) (sort_strings (labelled snapshots name label))
      (Perm.symm (sort_strings-perm (labelled snapshots name label)))
      (sort_strings-IsSorted (labelled snapshots name label)) h

last_two-none : (l : List Bytes) → (last_two l).2 ≡ none → l ≢ []
unfolding last_two
last_two-none [] h = cc
last_two-none (s ∷ l) h = λ e. cc

last_two_total : (l : List Bytes) → l ≢ [] → (last_two l).2 ≡ none
unfolding last_two
last_two_total [] h = absurd (h refl)
last_two_total (s ∷ []) h = refl
last_two_total (s ∷ t ∷ ss) h = let (rest, from, to, e, k) = last_two_long s t ss in ap (λ r. r.2) k

sort-nil : (l : List Bytes) → sort_strings l ≡ [] → l ≡ []
sort-nil l e = length-nil l (sym (length-sort_strings l) ∙ ap length e)

nil-sort : (l : List Bytes) → l ≡ [] → sort_strings l ≡ []
nil-sort l e = length-nil (sort_strings l) (length-sort_strings l ∙ ap length e)

-- There is something to send exactly when the dataset has a labelled snapshot.
pub newest_total :
    (snapshots : List Bytes) (name label : Bytes)
    → ((newest snapshots name label).2 ≡ none) ↔ (labelled snapshots name label ≢ [])
unfolding newest
newest_total snapshots name label =
    let l = labelled snapshots name label in
    (
      λ h e. last_two-none (sort_strings l) h (nil-sort l e),
      λ ne. last_two_total (sort_strings l) (λ e. ne (sort-nil l e)),
    )
