-- ===== src/Netconf/Checked.antt =====
-- A value, or the error that the function returns in its place.
use platform_configure.Prelude.{ap, Bytes, ◌≡◌, refl}

pub data Checked {ℓ} (A : Type ℓ) : Type ℓ where
  valid : A → Checked A
  invalid : Bytes → Checked A

infixl 5 ◌>>=◌
abbrev pub ◌>>=◌ {ℓ κ} : {A : Type ℓ} {B : Type κ} → Checked A → (A → Checked B) → Checked B
valid a >>= f = f a
invalid e >>= f = invalid e

pub >>=-eq-valid {ℓ κ} :
    {A : Type ℓ} {B : Type κ} (m : Checked A) (f : A → Checked B) {b : B}
    → (m >>= f) ≡ valid b
    → (a : A) × (m ≡ valid a) × (f a ≡ valid b)
>>=-eq-valid (valid a) f h = (a, refl, h)
>>=-eq-valid (invalid e) f h = absurd (cc)

pub >>=-valid {ℓ κ} :
    {A : Type ℓ} {B : Type κ} {m : Checked A} {a : A} (f : A → Checked B)
    → m ≡ valid a
    → (m >>= f) ≡ f a
>>=-valid f e = ap (λ m. m >>= f) e
