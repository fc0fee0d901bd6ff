-- ===== src/Net/RoundTrip.antt =====
-- An IPv4 address, printed and read again.
use platform_configure.Prelude.{
  if◌then◌else◌, ℕ, zero, suc, ◌<◌, Bytes, codes, ◌≡◌, ◌≢◌, refl, sym, ap, ◌∙◌, avoids, split,
  split-append, split-avoids, length, drop, take, take-append-drop, ◌⊎◌, inl, inr, bytes_eq,
  eq_of_bytes_eq, Bool, true, false, ◌&&◌, [], ◌∷◌, ◌++◌, append_assoc, none, some, ◌==◌, arith,
}
use platform_configure.Net.Number.{decimal_value, decimal}
use platform_configure.Net.Ip.{v4_in_v6, octet, octets, parse_ipv4, choose, parse_ip, to4}
use platform_configure.Net.Bounds.{small, small-drop, parse_ip-IsIp}
use platform_configure.Net.IpText.{dotted, ip_string}

-- The text has neither dot nor colon, and is read as the number.
reads_back : ℕ → Bytes → Bool
reads_back n s = avoids 46 s && avoids 58 s && (elim (octet s) [ none ↦ false | some m ↦ m == n ])

reads_back_lem :
    (n : ℕ) (s : Bytes)
    → reads_back n s ≡ true
    → (avoids 46 s ≡ true) × (avoids 58 s ≡ true) × (octet s ≡ some n)
unfolding reads_back
reads_back_lem n s h = ground arith

-- The numbers below the given one are all read back from their decimal text.
table : ℕ → Bool
unfolding reads_back octet decimal_value decimal
table zero = true
table (suc m) = let rest = table m in if reads_back m (decimal m) then rest else false

table-entry : (n top : ℕ) → n < top → table top ≡ true → reads_back n (decimal n) ≡ true
unfolding table
table-entry n zero below full = absurd (omega arith)
table-entry n (suc m) below full = ground (arith, table-entry n m)

table_of_bytes : table 256 ≡ true
unfolding table
table_of_bytes = refl

-- A byte's decimal text.
decimal_byte :
    (n : ℕ)
    → n < 256
    → (avoids 46 (decimal n) ≡ true) × (avoids 58 (decimal n) ≡ true) × (octet (decimal n) ≡ some n)
decimal_byte n h = reads_back_lem n (decimal n) (table-entry n 256 h table_of_bytes)

choose-append :
    (whole x rest : Bytes)
    → avoids 46 x ≡ true
    → avoids 58 x ≡ true
    → choose whole (x ++ 46 ∷ rest) ≡ parse_ipv4 whole
unfolding choose
choose-append whole [] rest h k = refl
choose-append whole (c ∷ x) rest h k = ground (arith, choose-append whole x rest)

split-dot :
    (n : ℕ) (rest : Bytes)
    → n < 256
    → split (decimal n ++ codes "." ++ rest) 46 ≡ decimal n ∷ split rest 46
split-dot n rest h =
    ap (λ s. split s 46) (append_assoc (decimal n) (codes ".") rest)
    ∙ split-append (decimal n) rest 46 (decimal_byte n h).0

split-dotted :
    (a b c d : ℕ)
    → a < 256
    → b < 256
    → c < 256
    → d < 256
    → split (dotted (a ∷ b ∷ c ∷ d ∷ [])) 46 ≡ decimal a ∷ decimal b ∷ decimal c ∷ decimal d ∷ []
unfolding dotted
split-dotted a b c d ha hb hc hd =
    split-dot a (dotted (b ∷ c ∷ d ∷ [])) ha
    ∙ ap (λ l. decimal a ∷ l)
        (split-dot b (dotted (c ∷ d ∷ [])) hb
          ∙ ap (λ l. decimal b ∷ l)
              (split-dot c (decimal d) hc
                ∙ ap (λ l. decimal c ∷ l) (split-avoids (decimal d) 46 (decimal_byte d hd).0)))

octets-decimal :
    (a b c d : ℕ)
    → a < 256
    → b < 256
    → c < 256
    → d < 256
    → octets (decimal a ∷ decimal b ∷ decimal c ∷ decimal d ∷ []) ≡ some (a ∷ b ∷ c ∷ d ∷ [])
unfolding octets
octets-decimal a b c d ha hb hc hd = ground (
  arith,
  (decimal_byte a ha).2,
  (decimal_byte b hb).2,
  (decimal_byte c hc).2,
  (decimal_byte d hd).2,
)

parse_ipv4-dotted :
    (a b c d : ℕ)
    → a < 256
    → b < 256
    → c < 256
    → d < 256
    → parse_ipv4 (dotted (a ∷ b ∷ c ∷ d ∷ [])) ≡ v4_in_v6 ++ a ∷ b ∷ c ∷ d ∷ []
unfolding parse_ipv4
parse_ipv4-dotted a b c d ha hb hc hd =
    ground (arith, split-dotted a b c d ha hb hc hd, octets-decimal a b c d ha hb hc hd)

-- Four bytes, printed with dots, are read as the IPv4 address that they are.
pub parse_ip-dotted :
    (a b c d : ℕ)
    → a < 256
    → b < 256
    → c < 256
    → d < 256
    → parse_ip (dotted (a ∷ b ∷ c ∷ d ∷ [])) ≡ v4_in_v6 ++ a ∷ b ∷ c ∷ d ∷ []
unfolding parse_ip dotted
parse_ip-dotted a b c d ha hb hc hd =
    let whole = dotted (a ∷ b ∷ c ∷ d ∷ []) in
    let (no_dot, no_colon, e) = decimal_byte a ha in
    ap (choose whole) (append_assoc (decimal a) (codes ".") (dotted (b ∷ c ∷ d ∷ [])))
    ∙ choose-append whole (decimal a) (dotted (b ∷ c ∷ d ∷ [])) no_dot no_colon
    ∙ parse_ipv4-dotted a b c d ha hb hc hd

four_bytes :
    (bs : Bytes) → length bs ≡ 4 → (a : ℕ) × (b : ℕ) × (c : ℕ) × (d : ℕ) × (bs ≡ a ∷ b ∷ c ∷ d ∷ [])
four_bytes [] h = absurd (omega arith)
four_bytes (a ∷ []) h = absurd (omega arith)
four_bytes (a ∷ b ∷ []) h = absurd (omega arith)
four_bytes (a ∷ b ∷ c ∷ []) h = absurd (omega arith)
four_bytes (a ∷ b ∷ c ∷ d ∷ []) h = (a, b, c, d, refl)
four_bytes (a ∷ b ∷ c ∷ d ∷ e ∷ bs) h = absurd (omega arith)

-- An IPv4 address in its 16-byte form.
to4_parts :
    (ip : Bytes)
    → length ip ≡ 16
    → length (to4 ip) ≡ 4
    → (ip ≡ v4_in_v6 ++ drop 12 ip) × (to4 ip ≡ drop 12 ip)
unfolding to4
to4_parts ip long h =
    let e : bytes_eq (take 12 ip) v4_in_v6 ≡ true = ground arith in
    (
      sym (take-append-drop 12 ip)
          ∙ ap (λ p. p ++ drop 12 ip) (eq_of_bytes_eq (take 12 ip) v4_in_v6 e),
      ground arith,
    )

ip_string-to4 : (ip : Bytes) → length ip ≡ 16 → length (to4 ip) ≡ 4 → ip_string ip ≡ dotted (to4 ip)
unfolding ip_string
ip_string-to4 ip long h = ground arith

parse_ip-four :
    (bs : Bytes) → length bs ≡ 4 → small bs ≡ true → parse_ip (dotted bs) ≡ v4_in_v6 ++ bs
parse_ip-four bs four bytes =
    let (a, b, c, d, e) = four_bytes bs four in
    let few : small (a ∷ b ∷ c ∷ d ∷ []) ≡ true = ap small (sym e) ∙ bytes in
    rw e (parse_ip-dotted a b c d (ground arith) (ground arith) (ground arith) (ground arith))

no_v4 : length (to4 []) ≢ 4
unfolding to4 bytes_eq
no_v4 h = omega arith

-- An IPv4 address that was read and is printed is read back as the same.
pub parse_ip-ip_string :
    (s : Bytes) → length (to4 (parse_ip s)) ≡ 4 → parse_ip (ip_string (parse_ip s)) ≡ parse_ip s
parse_ip-ip_string s v4 = go (parse_ip-IsIp s).1
  where
    ip : Bytes
    ip = parse_ip s

    go : (length ip ≡ 16) ⊎ (ip ≡ []) → parse_ip (ip_string ip) ≡ ip
    go (inl long) =
        let (whole, same) = to4_parts ip long v4 in
        ap parse_ip (ip_string-to4 ip long v4)
        ∙ ap (λ bs. parse_ip (dotted bs)) same
        ∙ parse_ip-four (drop 12 ip) (ap length (sym same) ∙ v4)
            (small-drop 12 ip (parse_ip-IsIp s).0)
        ∙ sym whole
    go (inr nil) = absurd (no_v4 (ap (λ x. length (to4 x)) (sym nil) ∙ v4))
