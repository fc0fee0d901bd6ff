-- ===== src/Zfs/Newest.antt =====
-- `newest` of zfs_snapshots.go: the snapshot to send, and the one before it.
pub mod Laws
pub mod Latest
use platform_configure.Prelude.{
  Bytes, Err, codes, has_prefix, filter, List, [], ◌∷◌, ◌++◌, none, some,
}
use platform_configure.Prelude.Sort.{sort_strings}

abbrev at_sign : Bytes
at_sign = codes "@"

-- `fmt.Sprintf("%s@%s-", name, label)`
abbrev pub label_prefix : Bytes → Bytes → Bytes
label_prefix name label = name ++ at_sign ++ label ++ codes "-"

-- The snapshots of the dataset that carry the label.
abbrev pub labelled : List Bytes → Bytes → Bytes → List Bytes
labelled snapshots name label = filter (λ s. has_prefix s (label_prefix name label)) snapshots

-- The switch over the number of candidates: `from`, `to` and `err`.
pub last_two : List Bytes → Bytes × Bytes × Err
last_two [] = ([], [], some (codes "No snapshots found to send"))
last_two (s ∷ []) = ([], s, none)
last_two (s ∷ t ∷ []) = (s, t, none)
last_two (s ∷ t ∷ u ∷ ss) = last_two (t ∷ u ∷ ss)

unfoldable pub newest : List Bytes → Bytes → Bytes → Bytes × Bytes × Err
unfolding last_two sort_strings has_prefix
newest snapshots name label = last_two (sort_strings (labelled snapshots name label))
