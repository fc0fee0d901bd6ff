-- ===== src/Zfs/Main.antt =====
-- main.go: the command line. The flags are parsed by package flag; `args` is what follows them.
pub mod Laws
use platform_configure.Prelude.{
  ℕ, Bytes, Err, codes, bytes_eq, Bool, List, [], ◌∷◌, none, some, if◌then◌else◌,
}
use platform_configure.Prelude.Int.{ℤ}
use platform_configure.Zfs.Interface.{Driver, Files, Runtime}
use platform_configure.Zfs.Moment.{Moment}
use platform_configure.Zfs.Snapshot.{Exit, returns, panics, take_snapshot}

pub record Flags : Type 0 where
  pub keep : ℤ
  pub label : Bytes
  pub send : Bool
  pub dir : Bytes

pub data Ending : Type 0 where
  exits : ℕ → Ending
  crashes : Ending

-- How the process ends, the lines that it printed, and the state that it leaves.
abbrev pub Outcome : Type 0 → Type 0
Outcome S = Ending × List Bytes × S

-- `if err != nil { log.Fatal(err) }`, and the end of `main`
unfoldable pub fatal : Err → Ending
fatal none = exits 0
fatal (some e) = exits 1

unfoldable pub ending : Exit → Ending
ending (returns err) = fatal err
ending panics = crashes

module _ {S : Type 0} (d : Driver S) (os : Files S) (rt : Runtime) (now : Moment)
    (flags : Flags) where
  unfoldable pub create : List Bytes → S → Outcome S
  create [] s = (exits 1, [], s)
  create (n ∷ names) s =
      let (exit, s1) =
        take_snapshot d os rt (n ∷ names) flags.label flags.keep flags.send flags.dir now s in
      (ending exit, [], s1)

  unfoldable pub delete : List Bytes → S → Outcome S
  delete [] s = (exits 1, [], s)
  delete (n ∷ []) s = let (err, s1) = d.delete_snapshot n s in (fatal err, [], s1)
  delete (n ∷ m ∷ names) s = (exits 1, [], s)

  unfoldable pub list : S → Outcome S
  list s =
      let (snapshots, err) = d.snapshots [] s in
      elim err [ some e ↦ (exits 1, [], s) | none ↦ (exits 0, snapshots, s) ]

  -- `flag.Args()[1:]` of no arguments is out of range. An unknown command prints the usage.
  unfoldable pub main : List Bytes → S → Outcome S
  main [] s = (crashes, [], s)
  main (cmd ∷ names) s =
      if bytes_eq cmd (codes "create")
      then create names s
      else if bytes_eq cmd (codes "delete")
      then delete names s
      else if bytes_eq cmd (codes "list")
      then list s
      else (exits 0, [], s)
