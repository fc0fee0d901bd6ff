-- ===== src/Zfs/Main/Laws.antt =====
-- What a whole run leaves behind.
use platform_configure.Prelude.{Bytes, Err, ◌≡◌, refl, ap, Bool, List, [], ◌∷◌, none, some, arith}
use platform_configure.Zfs.Interface.{Driver, Files, Runtime}
use platform_configure.Zfs.Moment.{Moment}
use platform_configure.Zfs.Pool.{IsPool, IsUnheld}
use platform_configure.Zfs.Snapshot.{Exit, returns, panics, take_snapshot}
use platform_configure.Zfs.Snapshot.Outcome.{take_snapshot_failed}
use platform_configure.Zfs.Main.{Flags, exits, fatal, ending, create, delete, list, main}

fatal-exits : (err : Err) → fatal err ≡ exits 1 → (e : Bytes) × (err ≡ some e)
unfolding fatal
fatal-exits none h = absurd (ground arith)
fatal-exits (some e) h = (e, refl)

ending-exits : (x : Exit) → ending x ≡ exits 1 → (e : Bytes) × (x ≡ returns (some e))
unfolding ending
ending-exits panics h = absurd (cc)
ending-exits (returns err) h = let (e, p) = fatal-exits err h in (e, ap returns p)

module _ {S : Type 0} (d : Driver S) (os : Files S) (rt : Runtime) (listed : Bytes → S → Bool)
    (L : IsPool d os listed) (U : IsUnheld d os listed) (now : Moment) (flags : Flags) where
  create_failed :
      (names : List Bytes) (s : S) (q : Bytes)
      → (create d os rt now flags names s).0 ≡ exits 1
      → listed q (create d os rt now flags names s).2 ≡ listed q s
  unfolding create
  create_failed [] s q h = refl
  create_failed (n ∷ names) s q h =
      let run =
        take_snapshot d os rt (n ∷ names) flags.label flags.keep flags.send flags.dir now s in
      let (e, p) = ending-exits run.0 h in
      take_snapshot_failed d os rt listed L U (n ∷ names) flags.label flags.keep flags.send
        flags.dir now s q p

  delete_failed :
      (names : List Bytes) (s : S) (q : Bytes)
      → (delete d os rt now flags names s).0 ≡ exits 1
      → listed q (delete d os rt now flags names s).2 ≡ listed q s
  unfolding delete
  delete_failed [] s q h = refl
  delete_failed (n ∷ []) s q h =
      let (e, p) = fatal-exits (d.delete_snapshot n s).0 h in L.listed-delete_failed n q e s p
  delete_failed (n ∷ m ∷ names) s q h = refl

  -- Whatever the command line, a process that exits with status 1 leaves the listing of the pool
  -- as it was. Assumed: ZFS lists, creates, sends and deletes as documented, and nothing holds a
  -- snapshot.
  pub main_failed :
      (args : List Bytes) (s : S) (q : Bytes)
      → (main d os rt now flags args s).0 ≡ exits 1
      → listed q (main d os rt now flags args s).2 ≡ listed q s
  unfolding main list
  main_failed [] s q h = refl
  main_failed (cmd ∷ names) s q h = ground (arith, create_failed names s q, delete_failed names s q)
