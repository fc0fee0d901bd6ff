-- ===== src/Zfs/Moment/Order.antt =====
-- The printed moments are ordered as texts as the moments are in time.
use platform_configure.Prelude.{
  ℕ, ◌+◌, ◌*◌, ◌<◌, ◌/◌, ◌%◌, ◌≡◌, ◌≤◌, refl, ap, Bytes, [], ◌∷◌, ltb, leb, ◌==◌, true, false,
  arith, leb, if◌then◌else◌, ◌∙◌,
}
use platform_configure.Prelude.Sort.{leb_bytes}
use platform_configure.Zfs.Moment.{Moment, IsValid, dash, two, four, format}

-- A number that grows with time: the fields as digits of a mixed radix.
abbrev rank_minute : Moment → ℕ
rank_minute m = m.minute * 60 + m.second

abbrev rank_hour : Moment → ℕ
rank_hour m = m.hour * 3600 + rank_minute m

abbrev rank_day : Moment → ℕ
rank_day m = m.day * 86400 + rank_hour m

abbrev rank_month : Moment → ℕ
rank_month m = m.month * 2764800 + rank_day m

abbrev pub rank : Moment → ℕ
rank m = m.year * 35942400 + rank_month m

leb_bytes-cons_self : (c : ℕ) (xs ys : Bytes) → leb_bytes (c ∷ xs) (c ∷ ys) ≡ leb_bytes xs ys
unfolding leb_bytes
leb_bytes-cons_self c xs ys = ground arith

leb_bytes-nil : leb_bytes [] [] ≡ true
unfolding leb_bytes
leb_bytes-nil = refl

leb_bytes-two :
    (a b : ℕ) (xs ys : Bytes)
    → a < 100
    → b < 100
    → leb_bytes (two a xs) (two b ys)
      ≡ (if ltb a b then true else if a == b then leb_bytes xs ys else false)
unfolding leb_bytes two
leb_bytes-two a b xs ys ha hb = ground arith

leb_bytes-four :
    (a b : ℕ) (xs ys : Bytes)
    → a < 10000
    → b < 10000
    → leb_bytes (four a xs) (four b ys)
      ≡ (if ltb a b then true else if a == b then leb_bytes xs ys else false)
unfolding four
leb_bytes-four a b xs ys ha hb = ground (
  arith,
  leb_bytes-two (a / 100) (b / 100) (two (a % 100) xs) (two (b % 100) ys),
  leb_bytes-two (a % 100) (b % 100) xs ys,
)

-- One field, and the rest after the dash.
leb_bytes-field :
    (a b : ℕ) (xs ys : Bytes)
    → a < 100
    → b < 100
    → leb_bytes (dash ∷ two a xs) (dash ∷ two b ys)
      ≡ (if ltb a b then true else if a == b then leb_bytes xs ys else false)
leb_bytes-field a b xs ys ha hb =
    leb_bytes-cons_self dash (two a xs) (two b ys) ∙ leb_bytes-two a b xs ys ha hb

row-le : (k a b : ℕ) → a < b → a * k + k ≤ b * k
row-le k a b h = grind arith

row-eq : (k a b : ℕ) → a ≡ b → a * k ≡ b * k
row-eq k a b e = ap (λ (t : ℕ). t * k) e

leb_digit :
    (k a b x y : ℕ)
    → x < k
    → y < k
    → (if ltb a b then true else if a == b then leb x y else false) ≡ leb (a * k + x) (b * k + y)
leb_digit k a b x y hx hy = ground (arith, row-le k a b, row-le k b a, row-eq k a b)

module _ (k a b x y : ℕ) (hx : x < k) (hy : y < k) (xs ys : Bytes)
    (e : leb_bytes xs ys ≡ leb x y) where
  field-rank :
      a < 100
      → b < 100
      → leb_bytes (dash ∷ two a xs) (dash ∷ two b ys) ≡ leb (a * k + x) (b * k + y)
  field-rank ha hb = rw (leb_bytes-field a b xs ys ha hb, e) (leb_digit k a b x y hx hy)

  year-rank :
      a < 10000 → b < 10000 → leb_bytes (four a xs) (four b ys) ≡ leb (a * k + x) (b * k + y)
  year-rank ha hb = rw (leb_bytes-four a b xs ys ha hb, e) (leb_digit k a b x y hx hy)

second-rank :
    (a b : ℕ) → a < 100 → b < 100 → leb_bytes (dash ∷ two a []) (dash ∷ two b []) ≡ leb a b
second-rank a b ha hb = ground (arith, leb_bytes-field a b [] [], leb_bytes-nil)

-- Of two moments in four-digit years, the earlier is printed as the smaller text: the bytewise
-- order of the prints is the order in time.
pub leb_bytes-format :
    (a b : Moment) → IsValid a → IsValid b → leb_bytes (format a) (format b) ≡ leb (rank a) (rank b)
unfolding format
leb_bytes-format a b va vb =
    let s = second-rank a.second b.second (omega arith) (omega arith) in
    let mi =
      field-rank 60 a.minute b.minute a.second b.second (omega arith) (omega arith) _ _ s
        (omega arith) (omega arith) in
    let h =
      field-rank 3600 a.hour b.hour (rank_minute a) (rank_minute b) (omega arith) (omega arith) _ _
        mi (omega arith) (omega arith) in
    let d =
      field-rank 86400 a.day b.day (rank_hour a) (rank_hour b) (omega arith) (omega arith) _ _ h
        (omega arith) (omega arith) in
    let mo =
      field-rank 2764800 a.month b.month (rank_day a) (rank_day b) (omega arith) (omega arith) _ _ d
        (omega arith) (omega arith) in
    year-rank 35942400 a.year b.year (rank_month a) (rank_month b) (omega arith) (omega arith) _ _
      mo va.year vb.year
