-- ===== src/Feedback/Main/Signals.antt =====
-- `rmOutOnCtrlC`: the handler of interrupts runs beside main. It removes the archive and ends the
-- process, and main may go on between the two.
pub mod Archive
use platform_configure.Prelude.{ℕ, Bytes, ◌≡◌, Bool, true, false, List, [], ◌∷◌, ◌++◌, map}
use platform_configure.Feedback.{Tools}
use platform_configure.Feedback.Main.{
  Host, Command, Task, collect, finish, closing, Next, goes, dies, unwinds, perform,
}

-- The process: the status with which main will end, whether the handler has removed the archive,
-- and what is left to do. When it has ended, the status with which it did.
pub data Process (S : Type 0) : Type 0 where
  alive : ℕ → Bool → List Task → S → Process S
  ended : ℕ → Bool → S → Process S

module _ {S : Type 0} (t : Tools S) (h : Host S) (dir name : Bytes) where
  pub data Step : Process S → Process S → Type 0 where
    works :
        (status : ℕ) (removed : Bool) (task : Task) (tasks : List Task) (s : S)
        (calls : List Command) (s1 : S)
        → perform t h dir task s ≡ goes calls s1
        → Step
            (alive status removed (task ∷ tasks) s)
            (alive status removed (map collect calls ++ tasks) s1)
    -- log.Fatal makes no deferred calls.
    fails :
        (status : ℕ) (removed : Bool) (task : Task) (tasks : List Task) (s s1 : S)
        → perform t h dir task s ≡ dies s1
        → Step (alive status removed (task ∷ tasks) s) (ended 1 removed s1)
    panics :
        (status : ℕ) (removed : Bool) (task : Task) (tasks : List Task) (s s1 : S)
        → perform t h dir task s ≡ unwinds s1
        → Step (alive status removed (task ∷ tasks) s) (alive 2 removed (map finish closing) s1)
    returns :
        (status : ℕ) (removed : Bool) (s : S)
        → Step (alive status removed [] s) (ended status removed s)
    -- A signal comes: `os.Remove(path)` of the handler.
    handles :
        (status : ℕ) (tasks : List Task) (s : S)
        → Step (alive status false tasks s) (alive status true tasks (h.remove name s).1)
    -- `os.Exit(1)` of the handler.
    exits :
        (status : ℕ) (tasks : List Task) (s : S) → Step (alive status true tasks s) (ended 1 true s)

  pub data Reach (p : Process S) : Process S → Type 0 where
    here : Reach p p
    next : {q r : Process S} → Reach p q → Step q r → Reach p r
