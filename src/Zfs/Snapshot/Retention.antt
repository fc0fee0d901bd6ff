-- ===== src/Zfs/Snapshot/Retention.antt =====
-- Which snapshots `cleanup` deletes.
use Prim.Native.Nat.{min}
use mathlib.Core.List.{Perm}
use mathlib.Core.List.Perm
use platform_configure.Prelude.{
  ℕ, ◌≤◌, ◌<◌, suc, ◌+◌, ◌-◌, ◌≡◌, inl, inr, sym, subst, Bytes, All, List, [], ◌++◌, some, none,
  arith, take, drop, replicate, length, take-append-drop, length-drop, ltb, leb, false, Bool-cases,
  Bool, if◌then◌else◌,
}
use platform_configure.Prelude.Int.{pos, negsuc}
use platform_configure.Prelude.Sort.{
  sort_strings, LeBytes, IsSorted, sort_strings-IsSorted, sort_strings-perm, length-sort_strings,
  IsSorted-append,
}
use platform_configure.Zfs.Interface.{Runtime}
use platform_configure.Zfs.Snapshot.{int_limit, reslice, victims}

-- A division of the old snapshots into those that go and those that stay.
pub record Split (old : List Bytes) (keep : ℕ) (gone kept : List Bytes) : Type 0 where
  pub whole : Perm (gone ++ kept) old
  pub number : length kept ≡ min keep (length old)
  pub oldest : All (λ g. All (LeBytes g) kept) gone

Split-take :
    (old : List Bytes) (keep : ℕ)
    → Split old keep
        (take (length old - keep) (sort_strings old))
        (drop (length old - keep) (sort_strings old))
Split-take old keep =
    let n = length old - keep in
    let sorted = sort_strings old in
    let e = take-append-drop n sorted in
    record {
      whole = subst (λ l. Perm l old) (sym e) (sort_strings-perm old);
      number = omega (arith, length-drop n sorted, length-sort_strings old);
      oldest =
          (IsSorted-append (take n sorted) (drop n sorted)
            (subst IsSorted (sym e) (sort_strings-IsSorted old))).0;
    }

Split-all : (old : List Bytes) (keep : ℕ) → length old ≤ keep → Split old keep [] old
Split-all old keep h = record { whole = Perm.refl old; number = omega arith; oldest = tt }

module _ (rt : Runtime) where
  reslice-within :
      (l : List Bytes) (high : ℕ) → high ≤ length l → reslice rt l high ≡ some (take high l)
  unfolding reslice
  reslice-within l high h = ground arith

  reslice-beyond :
      (l : List Bytes) (m high : ℕ)
      → high ≡ length l + m
      → 0 < m
      → reslice rt l high
        ≡ (if leb high (rt.capacity (length l)) then some (l ++ replicate m []) else none)
  unfolding reslice
  reslice-beyond l m high e p =
      let d : high - length l ≡ m = omega arith in
      let far : leb high (length l) ≡ false = ground arith in rw (far, d)

  -- With `-keep k`, k at least 1, `cleanup` never panics: it keeps the k - 1 greatest old
  -- snapshots, all of them if there are fewer, and deletes the others.
  pub victims-Split :
      (old : List Bytes) (k : ℕ)
      → (gone : List Bytes) × (kept : List Bytes) × (victims rt old (pos (suc k)) ≡ some gone)
        × Split old k gone kept
  unfolding victims reslice
  victims-Split old k = elim (Bool-cases (ltb (length old) (suc k))) [
    | inl few ↦ ([], old, rw few, Split-all old k (ground arith))
    | inr many ↦
        let high : length old - suc k + 1 ≡ length old - k = ground arith in
        (
          take (length old - k) (sort_strings old),
          drop (length old - k) (sort_strings old),
          ground (
            arith,
            reslice-within (sort_strings old) (length old - k),
            length-sort_strings old,
            high,
          ),
          Split-take old k,
        )
  ]

  -- The slice of length `length old + n + 2` is an int's and does not pass the capacity.
  abbrev pub has_room : List Bytes → ℕ → Bool
  has_room old n =
      let high = length old + n + 2 in
      if leb int_limit high then false else leb high (rt.capacity (length old))

  -- With a negative `keep`, `cleanup` panics unless the capacity of the slice of old snapshots
  -- has room; then all of them go, and deletions of the empty name follow.
  pub victims-negative :
      (old : List Bytes) (n : ℕ)
      → victims rt old (negsuc n)
        ≡ (if has_room old n then some (sort_strings old ++ replicate (n + 2) []) else none)
  unfolding victims
  victims-negative old n =
      let beyond =
        reslice-beyond (sort_strings old) (n + 2) (length old + n + 2)
          (omega (arith, length-sort_strings old)) (omega arith) in
      ground (arith, beyond, length-sort_strings old)
