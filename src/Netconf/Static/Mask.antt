-- ===== src/Netconf/Static/Mask.antt =====
-- What `parseMap` accepts.
use platform_configure.Prelude.{
  ℕ, suc, ◌<◌, Bytes, ◌≡◌, refl, split, length, All, List, [], ◌∷◌, arith, ap, ◌∙◌,
}
use platform_configure.Prelude.Int.{ℤ, pos, negsuc}
use platform_configure.Net.Number.{Atoi, number, syntax_error, range_error, atoi, to_byte}
use platform_configure.Netconf.Checked.{valid, >>=-eq-valid}
use platform_configure.Netconf.Static.{mask_byte, mask_bytes, parse_map}

to_byte-lt : (z : ℤ) → to_byte z < 256
unfolding to_byte
to_byte-lt (pos n) = omega arith
to_byte-lt (negsuc n) = omega arith

mask_byte-lt : (s : Bytes) (b : ℕ) → mask_byte s ≡ valid b → b < 256
unfolding mask_byte
mask_byte-lt s b h = go (atoi s) refl
  where
    go : (a : Atoi) → atoi s ≡ a → b < 256
    go (number z) e = ground (arith, to_byte-lt z)
    go syntax_error e = absurd (ground arith)
    go range_error e = absurd (ground arith)

mask_bytes_ok :
    (ss : List Bytes) (m : Bytes)
    → mask_bytes ss ≡ valid m
    → (length m ≡ length ss) × All (λ b. b < 256) m
unfolding mask_bytes
mask_bytes_ok [] m h = let e : [] ≡ m = cc in rw (← e) (refl, tt)
mask_bytes_ok (s ∷ ss) m h =
    let (b, first, h1) = >>=-eq-valid (mask_byte s) _ h in
    let (bs, rest, h2) = >>=-eq-valid (mask_bytes ss) _ h1 in
    let e : b ∷ bs ≡ m = cc in
    let (n, small) = mask_bytes_ok ss bs rest in
    rw (← e) (ap suc n, (mask_byte-lt s b first, small))

-- An accepted mask has four bytes.
pub parse_map_ok : (s m : Bytes) → parse_map s ≡ valid m → (length m ≡ 4) × All (λ b. b < 256) m
unfolding parse_map
parse_map_ok s m h =
    let four : length (split s 46) ≡ 4 = ground arith in
    let (n, small) = mask_bytes_ok (split s 46) m (ground arith) in (n ∙ four, small)
