-- ===== src/SkvsCli.antt =====
-- go/skvs_cli/main.go: the store from the command line. Package skvs/client is a parameter.
pub mod Laws
use platform_configure.Prelude.{
  ℕ, Bytes, Err, codes, bytes_eq, Bool, ◌&&◌, ◌||◌, List, [], ◌∷◌, none, some, leb, ◌+◌,
  if◌then◌else◌, ◌++◌,
}

pub record Client (S : Type 0) : Type 0 where
  pub get : Bytes → S → Bytes × Err × S
  pub set : Bytes → Bytes → S → Err × S
  pub delete : Bytes → S → Err × S

-- strings.ToLower of one ASCII byte
unfoldable pub lower : ℕ → ℕ
lower c = if leb 65 c && leb c 90 then c + 32 else c

unfoldable pub to_lower : Bytes → Bytes
unfolding lower
to_lower [] = []
to_lower (c ∷ s) = lower c ∷ to_lower s

-- The exit status, what is printed to the standard output and to the standard error, and the
-- state.
pub record Outcome (S : Type 0) : Type 0 where
  pub status : ℕ
  pub out : Bytes
  pub err : Bytes
  pub state : S

-- `printUsage`, with the program's name.
abbrev pub usage : Bytes → Bytes
usage program =
    codes "Usage: "
    ++ program
    ++ codes
        " OPERATION [PARAMS]\n\nSupported operations:\n\tget KEY\n\tset KEY VALUE\n\tdelete KEY\n"

abbrev pub invalid_parameters : {S : Type 0} → Bytes → S → Outcome S
invalid_parameters program s = record { status = 1; out = []; err = usage program; state = s }

-- `fmt.Fprintln(os.Stderr, err.Error())` and the exit.
abbrev pub fails : {S : Type 0} → Bytes → S → Outcome S
fails e s = record { status = 1; out = []; err = e ++ codes "\n"; state = s }

-- The end of a case that prints nothing.
unfoldable pub finish : {S : Type 0} → Err × S → Outcome S
finish (none, s) = record { status = 0; out = []; err = []; state = s }
finish (some e, s) = fails e s

module _ {S : Type 0} (skvs : Client S) (program : Bytes) where
  unfoldable pub get : List Bytes → S → Outcome S
  get [] s = invalid_parameters program s
  get (key ∷ []) s =
      let (value, failed, s1) = skvs.get key s in
      elim failed [
        | some e ↦ fails e s1
        | none ↦ record { status = 0; out = value; err = []; state = s1 }
      ]
  get (key ∷ x ∷ args) s = invalid_parameters program s

  unfoldable pub delete : List Bytes → S → Outcome S
  unfolding finish
  delete [] s = invalid_parameters program s
  delete (key ∷ []) s = finish (skvs.delete key s)
  delete (key ∷ x ∷ args) s = invalid_parameters program s

  unfoldable pub set : List Bytes → S → Outcome S
  unfolding finish
  set [] s = invalid_parameters program s
  set (key ∷ []) s = invalid_parameters program s
  set (key ∷ value ∷ []) s = finish (skvs.set key value s)
  set (key ∷ value ∷ x ∷ args) s = invalid_parameters program s

  -- The arguments behind the program's name.
  unfoldable pub main : List Bytes → S → Outcome S
  unfolding to_lower bytes_eq
  main [] s = invalid_parameters program s
  main (operation ∷ args) s =
      let op = to_lower operation in
      if bytes_eq op (codes "get")
      then get args s
      else if bytes_eq op (codes "delete")
      then delete args s
      else if bytes_eq op (codes "set")
      then set args s
      else if bytes_eq op (codes "--help") || bytes_eq op (codes "-h") || bytes_eq op (codes "help")
      then record { status = 0; out = []; err = usage program; state = s }
      else invalid_parameters program s
