-- ===== src/Zfs/Moment.antt =====
-- `time.Now().Format(timeFormat)` of zfs_snapshots.go, with the layout `2006-01-02-15-04-05`.
pub mod Order
use platform_configure.Prelude.{ℕ, ◌+◌, ◌/◌, ◌%◌, ◌<◌, [], ◌∷◌, Bytes}

-- The fields that the layout prints.
pub record Moment : Type 0 where
  pub year : ℕ
  pub month : ℕ
  pub day : ℕ
  pub hour : ℕ
  pub minute : ℕ
  pub second : ℕ

-- A calendar date of the years that have four digits, and a time of day.
pub record IsValid (m : Moment) : Type 0 where
  pub year : m.year < 10000
  pub month : m.month < 13
  pub day : m.day < 32
  pub hour : m.hour < 24
  pub minute : m.minute < 60
  pub second : m.second < 60

abbrev dash : ℕ
dash = 45

abbrev pub digit : ℕ → ℕ
digit n = 48 + n % 10

-- Two digits, with a leading zero.
unfoldable pub two : ℕ → Bytes → Bytes
two n rest = digit (n / 10) ∷ digit n ∷ rest

-- Four digits, with leading zeros.
unfoldable pub four : ℕ → Bytes → Bytes
four n rest = two (n / 100) (two (n % 100) rest)

unfoldable pub format : Moment → Bytes
format m = four m.year (
    dash
    ∷ two m.month
        (dash ∷ two m.day (dash ∷ two m.hour (dash ∷ two m.minute (dash ∷ two m.second [])))))
