-- ===== src/Zfs/Commands.antt =====
-- The zfs commands on the machine in memory.
use platform_configure.Prelude.{
  Bytes, Err, codes, ◌≡◌, refl, ap, sym, List, [], ◌∷◌, ◌++◌, none, some, arith, member,
  member-append, map, if◌then◌else◌,
}
use platform_configure.Zfs.GoZfs.{Commands, Dataset}
use platform_configure.Zfs.GoZfs.Pool.{IsZfs, IsFree}
use platform_configure.Zfs.Memory.{
  Machine, memory_files, in_pool, without, member-without, not_found,
}

abbrev snapshot : Bytes → Dataset
snapshot name = record { name = name; kind = codes "snapshot" }

abbrev created : List Bytes → Machine → Err × Machine
created (zfs ∷ verb ∷ full) m = (none, record m { pool = full ++ m.pool })
created words m = (some (codes "usage"), m)

-- Whether a send fails is given.
abbrev pub memory_commands : Err → Commands Machine
memory_commands sent = record {
  dataset_snapshot = codes "snapshot";
  list_snapshots = λ name m. (map snapshot m.pool, none);
  get_dataset = λ name m.
      if member name m.pool then (snapshot name, none) else (snapshot name, not_found name);
  destroy = λ ds m. (none, record m { pool = without ds.name m.pool });
  send_snapshot = λ ds path m. (sent, m);
  run = λ words out m. elim out [ none ↦ created words m | some path ↦ (sent, m) ];
}

names-snapshot : (l : List Bytes) → map (λ ds. ds.name) (map snapshot l) ≡ l
names-snapshot [] = refl
names-snapshot (n ∷ l) = ap (λ r. n ∷ r) (names-snapshot l)

pub commands-IsZfs : (sent : Err) → IsZfs (memory_commands sent) memory_files in_pool
commands-IsZfs sent = record {
  listed-list = λ s q ok. ap (member q) (sym (names-snapshot s.pool));
  listed-snapshot = λ full q s ok. member-append q full s.pool;
  listed-snapshot_other = λ full q s h. ground (arith, member-append q full s.pool);
  name-get_dataset = λ name s ok. ground arith;
  listed-destroy = λ ds q s kind ok. member-without ds.name q s.pool;
  listed-destroy_failed = λ ds q e s kind failed. absurd (cc);
  listed-send = λ ds path q s. refl;
  listed-send_from = λ from to path q s. refl;
  listed-file_create = λ path q s. refl;
  listed-file_remove = λ path q s. refl;
  listed-file_rename = λ old new q s. ground arith;
}

pub commands-IsFree : (sent : Err) → IsFree (memory_commands sent) in_pool
commands-IsFree sent = record {
  found = λ n s there. ground arith;
  kind-get_dataset = λ n s there. ground arith;
  destroyed = λ n s there. refl;
}
