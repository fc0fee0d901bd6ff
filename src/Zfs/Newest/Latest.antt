-- ===== src/Zfs/Newest/Latest.antt =====
-- The greatest name is the latest snapshot, since the moments are printed in fixed width.
use platform_configure.Prelude.{
  ◌≡◌, ◌≤◌, refl, sym, ap, subst, ◌∙◌, Bytes, Err, All, All-map, All-append, List, [], ◌∷◌, ◌++◌,
  none, map, leb→le,
}
use platform_configure.Prelude.Sort.{
  sort_strings, LeBytes, leb_bytes_refl, IsSorted, sort_strings-IsSorted, IsSorted-append,
  All-sort_strings, of_All-sort_strings, leb_bytes-append,
}
use platform_configure.Zfs.Moment.{Moment, IsValid, format}
use platform_configure.Zfs.Moment.Order.{rank, leb_bytes-format}
use platform_configure.Zfs.Newest.{label_prefix, labelled, last_two, newest}
use platform_configure.Zfs.Newest.Laws.{last_two_long}

-- The name of the snapshot that was taken at a moment.
abbrev pub snapshot_at : Bytes → Bytes → Moment → Bytes
snapshot_at name label m = label_prefix name label ++ format m

module _ (rest : List Bytes) (from to : Bytes) where
  -- The last item of a sorted list is at least every item.
  last-max : IsSorted (rest ++ from ∷ to ∷ []) → All (λ s. LeBytes s to) (rest ++ from ∷ to ∷ [])
  last-max o =
      let (cross, front, back) = IsSorted-append rest (from ∷ to ∷ []) o in
      All-append (λ s. LeBytes s to) rest (from ∷ to ∷ [])
        (All-map (λ s. All (LeBytes s) (from ∷ to ∷ [])) (λ s. LeBytes s to) (λ s h. h.1.0) rest
          cross)
        (back.0.0, (leb_bytes_refl to, tt))

last_two-max :
    (sorted : List Bytes) {from to : Bytes}
    → IsSorted sorted
    → last_two sorted ≡ (from, to, none)
    → All (λ s. LeBytes s to) sorted
unfolding last_two
last_two-max [] o h = tt
last_two-max (s ∷ []) {from} {to} o h =
    let e : s ≡ to = cc in (subst (LeBytes s) e (leb_bytes_refl s), tt)
last_two-max (s ∷ t ∷ ss) {from} {to} o h =
    let (rest, from', to', e, k) = last_two_long s t ss in
    let same : ◌≡◌ {A = Bytes × Bytes × Err} (from', to', none) (from, to, none) = sym k ∙ h in
    let last : to' ≡ to = ap (λ (r : Bytes × Bytes × Err). r.1) same in
    subst (λ u. All (λ x. LeBytes x u) (s ∷ t ∷ ss)) last
      (subst (λ l. All (λ x. LeBytes x to') l) (sym e)
        (last-max rest from' to' (subst IsSorted e o)))

All-last {κ} :
    (P : Bytes → Type κ) (rest : List Bytes) (from to : Bytes)
    → All P (rest ++ from ∷ to ∷ [])
    → P to
All-last P [] from to h = h.1.0
All-last P (s ∷ rest) from to h = All-last P rest from to h.1

last_two-All {κ} :
    (P : Bytes → Type κ) (l : List Bytes) {from to : Bytes}
    → All P l
    → last_two l ≡ (from, to, none)
    → P to
unfolding last_two
last_two-All P [] a h = absurd (cc)
last_two-All P (s ∷ []) {from} {to} a h = let e : s ≡ to = cc in subst P e a.0
last_two-All P (s ∷ t ∷ ss) {from} {to} a h =
    let (rest, from', to', e, k) = last_two_long s t ss in
    let same : ◌≡◌ {A = Bytes × Bytes × Err} (from', to', none) (from, to, none) = sym k ∙ h in
    subst P (ap (λ (r : Bytes × Bytes × Err). r.1) same)
      (All-last P rest from' to' (subst (All P) e a))

-- Taken at a valid moment of the list.
abbrev TakenAt : Bytes → Bytes → Bytes → Type 0
TakenAt name label s = (m : Moment) × IsValid m × (s ≡ snapshot_at name label m)

TakenAt-map :
    (name label : Bytes) (ms : List Moment)
    → All IsValid ms
    → All (TakenAt name label) (map (snapshot_at name label) ms)
TakenAt-map name label [] h = tt
TakenAt-map name label (m ∷ ms) h = ((m, h.0, refl), TakenAt-map name label ms h.1)

rank-le :
    (name label : Bytes) (a b : Moment)
    → IsValid a
    → IsValid b
    → LeBytes (snapshot_at name label a) (snapshot_at name label b)
    → rank a ≤ rank b
rank-le name label a b va vb h = leb→le (rank a) (rank b) (
    sym (
      leb_bytes-append (label_prefix name label) (format a) (format b) ∙ leb_bytes-format a b va vb)
    ∙ h)

All-rank-le :
    (name label : Bytes) (m : Moment) (ms : List Moment)
    → IsValid m
    → All IsValid ms
    → All (λ s. LeBytes s (snapshot_at name label m)) (map (snapshot_at name label) ms)
    → All (λ n. rank n ≤ rank m) ms
All-rank-le name label m [] vm v h = tt
All-rank-le name label m (n ∷ ms) vm v h =
    (rank-le name label n m v.0 vm h.0, All-rank-le name label m ms vm v.1 h.1)

-- If the labelled snapshots of the dataset were taken at moments in four-digit years, then what is
-- sent is named by a moment than which none of those is later.
pub newest_latest :
    (snapshots : List Bytes) (name label : Bytes) (ms : List Moment) {from to : Bytes}
    → labelled snapshots name label ≡ map (snapshot_at name label) ms
    → All IsValid ms
    → newest snapshots name label ≡ (from, to, none)
    → (m : Moment) × IsValid m × (to ≡ snapshot_at name label m) × All (λ n. rank n ≤ rank m) ms
unfolding newest
newest_latest snapshots name label ms {from} {to} e v h =
    let l = labelled snapshots name label in
    let taken = subst (All (TakenAt name label)) (sym e) (TakenAt-map name label ms v) in
    let (m, vm, p) =
      last_two-All (TakenAt name label) (sort_strings l) (All-sort_strings _ l taken) h in
    let top =
      of_All-sort_strings (λ s. LeBytes s to) l
        (last_two-max (sort_strings l) (sort_strings-IsSorted l) h) in
    (
      m,
      vm,
      p,
      All-rank-le name label m ms vm v (
          subst (λ u. All (λ s. LeBytes s u) (map (snapshot_at name label) ms)) p
            (subst (All (λ s. LeBytes s to)) e top)),
    )
