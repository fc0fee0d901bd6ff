-- ===== src/Feedback/Memory.antt =====
-- A machine in memory that meets the assumed laws: its state is the names in the archive and the
-- paths of the files and directories. `walk` is what filepath.Walk visits, and
-- `copied` what copying a file into the archive comes to.
use platform_configure.Prelude.{
  Bytes, Err, codes, ◌≡◌, refl, Bool, false, bytes_eq, eq_of_bytes_eq, has_prefix, member, List, [],
  ◌∷◌, ◌++◌, none, some, true, map, bytes_eq_refl, append_assoc, if◌then◌else◌, arith,
}
use platform_configure.Zfs.Moment.{Moment}
use platform_configure.Feedback.{Visit, Tools}
use platform_configure.Feedback.Laws.{IsArchive}
use platform_configure.Feedback.Main.{Host}
use platform_configure.Feedback.Main.Outcome.{IsUntouched}
use platform_configure.Feedback.Main.Files.{IsHost}
use platform_configure.Feedback.Main.Reports.{IsWorkDir}

pub record Machine : Type 0 where
  pub names : List Bytes
  pub paths : List Bytes

abbrev without : Bytes → List Bytes → List Bytes
without q [] = []
without q (p ∷ paths) = if bytes_eq p q then without q paths else p ∷ without q paths

abbrev without_below : Bytes → List Bytes → List Bytes
without_below q [] = []
without_below q (p ∷ paths) =
    if has_prefix p q then without_below q paths else p ∷ without_below q paths

-- Two units have failed, one per line.
abbrev two_units : Bytes
two_units = codes "nginx.service loaded failed\nsshd.service loaded failed\n"

abbrev pub exists : Bytes → Machine → Bool
exists q s = member q s.paths

abbrev pub work_dir : Bytes
work_dir = codes "/tmp/platform-feedback1"

abbrev pub noon : Moment
noon = record { year = 2016; month = 5; day = 4; hour = 12; minute = 0; second = 0 }

abbrev pub tools : (Bytes → Machine → List Visit) → Err → Tools Machine
tools walk copied = record {
  combined_output = λ command params s. (two_units, none, s);
  open_append = λ path s. (none, record s { paths = path ∷ s.paths });
  run = λ command params path s. (none, s);
  hostname = λ s. (codes "box", none);
  walk = walk;
  header_info = λ v s. none;
  write_header = λ name s. (none, record s { names = s.names ++ name ∷ [] });
  open_file = λ path s. (none, s);
  copy = λ path s. (copied, s);
}

abbrev pub host : Host Machine
host = record {
  getuid = λ s. 0;
  temp_dir = λ prefix s. (work_dir, none, record s { paths = work_dir ∷ s.paths });
  utc_now = λ s. noon;
  open_create = λ path s. (none, record s { paths = path ∷ s.paths });
  remove = λ path s. (none, record s { paths = without path s.paths });
  remove_all = λ path s. (none, record s { paths = without_below path s.paths });
  close = λ c s. (none, s);
}

member-without :
    (p q : Bytes) (paths : List Bytes)
    → member q (without p paths) ≡ (if bytes_eq p q then false else member q paths)
member-without p q [] = ground arith
member-without p q (x ∷ paths) =
    ground
      (arith, member-without p q paths, eq_of_bytes_eq x p, eq_of_bytes_eq x q, eq_of_bytes_eq p q)

member-without_below :
    (p q : Bytes) (paths : List Bytes)
    → has_prefix q p ≡ false
    → member q (without_below p paths) ≡ member q paths
member-without_below p q [] h = refl
member-without_below p q (x ∷ paths) h =
    ground (arith, member-without_below p q paths, eq_of_bytes_eq x q)

-- It meets them.
pub machine-IsArchive :
    (walk : Bytes → Machine → List Visit) (copied : Err)
    → IsArchive (tools walk copied) (λ s. s.names)
machine-IsArchive walk copied = record {
  names-header = λ n s h. refl;
  names-open_file = λ p s. refl;
  names-copy = λ p s. refl;
}

pub machine-IsUntouched :
    (walk : Bytes → Machine → List Visit) (copied : Err)
    → IsUntouched (tools walk copied) host (λ s. s.names)
machine-IsUntouched walk copied = record {
  names-combined_output = λ command params s. refl;
  names-open_append = λ path s. refl;
  names-run = λ command params out s. refl;
  names-remove_all = λ path s. refl;
  names-close = λ c s. refl;
}

pub machine-IsHost :
    (walk : Bytes → Machine → List Visit) (copied : Err) → IsHost (tools walk copied) host exists
machine-IsHost walk copied = record {
  exists-combined_output = λ command params q s. refl;
  exists-run = λ command params out q s. refl;
  exists-open_append = λ path q s h. ground arith;
  exists-write_header = λ n q s. refl;
  exists-open_file = λ path q s. refl;
  exists-copy = λ path q s. refl;
  exists-close = λ c q s. refl;
  exists-remove_all = λ path q s h. member-without_below path q s.paths h;
  exists-remove = λ path q s. member-without path q s.paths;
  exists-open_create = λ path q s h. refl;
}

-- The part of a path behind the directory's.
abbrev behind : Bytes → Bytes → Bytes
behind [] path = path
behind (c ∷ dir) [] = []
behind (c ∷ dir) (d ∷ path) = behind dir path

-- The directory itself, and the files in it.
abbrev visits_of : Bytes → List Bytes → List Visit
visits_of dir [] = []
visits_of dir (path ∷ paths) =
    record { path = path; relative = behind (dir ++ codes "/") path; is_dir = some false }
    ∷ visits_of dir paths

-- The same machine, with a walk that visits the files of which it knows.
abbrev pub walking : Tools Machine
walking = tools (λ dir s. visits_of dir s.paths) none

behind-append : (dir path : Bytes) → behind dir (dir ++ path) ≡ path
behind-append [] path = refl
behind-append (c ∷ dir) path = behind-append dir path

visits_of-member :
    (dir name : Bytes) (paths : List Bytes)
    → member (dir ++ codes "/" ++ name) paths ≡ true
    → member name (map (λ v. v.relative) (visits_of dir paths)) ≡ true
visits_of-member dir name [] h = absurd (cc)
visits_of-member dir name (path ∷ paths) h = ground (
  arith,
  visits_of-member dir name paths,
  eq_of_bytes_eq path (dir ++ codes "/" ++ name),
  behind-append (dir ++ codes "/") name,
  bytes_eq_refl name,
)

pub walking-IsWorkDir : IsWorkDir walking exists
walking-IsWorkDir = record {
  opened = λ path s. refl;
  made = λ path s. ground (arith, bytes_eq_refl path);
  walked = λ dir file s plain there.
      visits_of-member dir (file ++ codes ".txt") s.paths
        (rw (← append_assoc (dir ++ codes "/") file (codes ".txt")) there);
}
