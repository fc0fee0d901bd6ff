-- ===== src/Zfs/Snapshot.antt =====
-- `TakeSnapshot` and `cleanup` of zfs_snapshots.go.
pub mod Retention
pub mod Outcome
pub mod Negative
pub mod Collision
pub mod Scanning
use platform_configure.Prelude.{
  ℕ, zero, suc, ◌+◌, ◌-◌, Bytes, Err, codes, has_prefix, has_suffix, length, take, replicate, Bool,
  List, [], ◌∷◌, ◌++◌, Option, none, some, ltb, leb, if◌then◌else◌,
}
use platform_configure.Prelude.Int.{ℤ, pos, negsuc}
use platform_configure.Prelude.Sort.{sort_strings}
use platform_configure.Zfs.Interface.{Driver, Files, Runtime}
use platform_configure.Zfs.Moment.{Moment, format}
use platform_configure.Zfs.Send.{send_snapshots}

-- A call returns its error, or the program panics.
pub data Exit : Type 0 where
  returns : Err → Exit
  panics : Exit

-- `fmt.Sprintf("%s-%s", label, time.Now().Format(timeFormat))`
abbrev pub stamp : Bytes → Moment → Bytes
stamp label now = label ++ codes "-" ++ format now

-- `fmt.Sprintf("%s@%s", n, labelWithTimestamp)`
abbrev pub full_name : Bytes → Bytes → Bytes
full_name stamped n = n ++ codes "@" ++ stamped

abbrev pub dataset_prefix : Bytes → Bytes
dataset_prefix n = n ++ codes "@"

abbrev pub already_exists : Bytes → Bytes
already_exists full = codes "snapshot " ++ full ++ codes " already exists"

-- What the two loops at the start find: a snapshot that exists, or the old and the new snapshots.
pub data Scan : Type 0 where
  collides : Bytes → Scan
  fresh : List Bytes → List Bytes → Scan

-- The loop over all snapshots for one dataset; `none` is the return on a collision.
unfoldable pub scan_one : Bytes → Bytes → List Bytes → List Bytes → Option (List Bytes)
scan_one full prefix [] old = some old
scan_one full prefix (ss ∷ rest) old =
    let more = scan_one full prefix rest (if has_prefix ss prefix then old ++ ss ∷ [] else old) in
    if has_suffix ss full then none else more

unfoldable pub scan : List Bytes → Bytes → List Bytes → List Bytes → List Bytes → Scan
scan all stamped [] old new = fresh old new
scan all stamped (n ∷ names) old new =
    elim (scan_one (full_name stamped n) (dataset_prefix n) all old) [
      | none ↦ collides (full_name stamped n)
      | some old1 ↦ scan all stamped names old1 (new ++ full_name stamped n ∷ [])
    ]

module _ {S : Type 0} (d : Driver S) where
  -- `for _, n := range newSnapshots { _ = DeleteSnapshot(n) }`; the loop of `cleanup` too, where
  -- an error is only logged.
  unfoldable pub delete_all : List Bytes → S → S
  delete_all [] s = s
  delete_all (n ∷ names) s = delete_all names (d.delete_snapshot n s).1

-- 2 ^ 63, the first number beyond an int.
abbrev pub int_limit : ℕ
int_limit = 9223372036854775808

module _ (rt : Runtime) where
  -- `snapshots[:high]`. Beyond the length, the slice shows the zero values up to its capacity.
  unfoldable pub reslice : List Bytes → ℕ → Option (List Bytes)
  reslice l high =
      if leb high (length l)
      then some (take high l)
      else if leb high (rt.capacity (length l))
      then some (l ++ replicate (high - length l) [])
      else none

  -- The snapshots that `cleanup` deletes; `none` is the panic of a slice out of range. With a
  -- negative `keep` the bound can pass the greatest int: it wraps to a negative number, which is
  -- out of range.
  unfoldable pub victims : List Bytes → ℤ → Option (List Bytes)
  victims snapshots (pos keep) =
      if ltb (length snapshots) keep
      then some []
      else reslice (sort_strings snapshots) (length snapshots - keep + 1)
  victims snapshots (negsuc n) =
      let high = length snapshots + n + 2 in
      if leb int_limit high then none else reslice (sort_strings snapshots) high

module _ {S : Type 0} (d : Driver S) (rt : Runtime) where
  unfoldable pub cleanup : List Bytes → ℤ → S → Exit × S
  cleanup snapshots keep s = elim (victims rt snapshots keep) [
    | none ↦ (panics, s)
    | some old ↦ (returns none, delete_all d old s)
  ]

  -- `if keep != 0 { cleanup(oldSnapshots, keep) }`
  unfoldable pub cleanup_unless_zero : List Bytes → ℤ → S → Exit × S
  cleanup_unless_zero old (pos zero) s = (returns none, s)
  cleanup_unless_zero old (pos (suc n)) s = cleanup old (pos (suc n)) s
  cleanup_unless_zero old (negsuc n) s = cleanup old (negsuc n) s

module _ {S : Type 0} (d : Driver S) (os : Files S) (rt : Runtime) where
  -- From `driver.CreateSnapshots` on.
  unfoldable pub create_and_send :
      List Bytes → Bytes → Bytes → ℤ → Bool → Bytes → List Bytes → List Bytes → S → Exit × S
  create_and_send names label stamped keep send dir old new s =
      let (err, s1) = d.create_snapshots names stamped s in
      elim err [
        | some e ↦ (returns (some e), delete_all d new s1)
        | none ↦
            let (sent, s2) =
              if send then send_snapshots d os rt names label stamped dir s1 else (none, s1) in
            elim sent [
              | some e ↦ (returns (some e), delete_all d new s2)
              | none ↦ cleanup_unless_zero d rt old keep s2
            ]
      ]

  unfoldable pub take_snapshot : List Bytes → Bytes → ℤ → Bool → Bytes → Moment → S → Exit × S
  take_snapshot names label keep send dir now s =
      let (all, err) = d.snapshots [] s in
      elim err [
        | some e ↦ (returns (some e), s)
        | none ↦ elim (scan all (stamp label now) names [] []) [
          | collides full ↦ (returns (some (already_exists full)), s)
          | fresh old new ↦ create_and_send names label (stamp label now) keep send dir old new s
        ]
      ]
