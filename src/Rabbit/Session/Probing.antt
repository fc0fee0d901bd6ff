-- ===== src/Rabbit/Session/Probing.antt =====
-- What `checkAvailability` finds out.
use platform_configure.Prelude.{
  ℕ, zero, suc, ◌<◌, Err, codes, ◌≡◌, ◌↔◌, refl, none, some, arith, true, false,
}
use platform_configure.Rabbit.Session.{World, Session, probe, check_availability}

module _ {C W : Type 0} (w : World C W) where
  -- The world after some rounds that got no answer.
  abbrev pub waited : ℕ → W → W
  waited zero x = x
  waited (suc n) x = waited n (w.sleep_3ns (w.skvs.get (codes "hostname") x).2)

  abbrev pub IsAnswered : W → Type 0
  IsAnswered x = (w.skvs.get (codes "hostname") x).1 ≡ none

  probe_sound :
      (n : ℕ) (x : W) → (probe w n x).0 ≡ true → (i : ℕ) × (i < n) × IsAnswered (waited i x)
  unfolding probe
  probe_sound zero x h = absurd (cc)
  probe_sound (suc n) x h =
      go (w.skvs.get (codes "hostname") x).1 refl
        (probe_sound n (w.sleep_3ns (w.skvs.get (codes "hostname") x).2))
    where
      x1 : W
      x1 = w.sleep_3ns (w.skvs.get (codes "hostname") x).2

      go :
          (err : Err)
          → (w.skvs.get (codes "hostname") x).1 ≡ err
          → ((probe w n x1).0 ≡ true → (i : ℕ) × (i < n) × IsAnswered (waited i x1))
          → (i : ℕ) × (i < suc n) × IsAnswered (waited i x)
      go none p later = (0, omega arith, p)
      go (some e) p later = let (i, less, a) = later (ground arith) in (suc i, omega arith, a)

  probe_complete : (n i : ℕ) (x : W) → i < n → IsAnswered (waited i x) → (probe w n x).0 ≡ true
  unfolding probe
  probe_complete zero i x less a = absurd (omega arith)
  probe_complete (suc n) zero x less a = ground arith
  probe_complete (suc n) (suc i) x less a =
      ground (arith, probe_complete n i (w.sleep_3ns (w.skvs.get (codes "hostname") x).2))

  -- A store that was not found available before is found so just when one of the given number of
  -- probes is answered.
  pub check_availability_iff :
      (retries : ℕ) (s : Session C W)
      → s.available ≡ false
      → ((check_availability w retries s).0 ≡ true)
        ↔ (i : ℕ) × (i < retries) × IsAnswered (waited i s.world)
  unfolding check_availability
  check_availability_iff retries s fresh = (
    (λ h. probe_sound retries s.world (ground arith)),
    (λ (i, less, a). ground (arith, probe_complete retries i s.world less a)),
  )

  -- Once the store was available it is not probed again: a later check says yes and leaves
  -- everything as it is.
  pub check_availability_once :
      (m n : ℕ) (s : Session C W)
      → (check_availability w m s).0 ≡ true
      → check_availability w n (check_availability w m s).1 ≡ (true, (check_availability w m s).1)
  unfolding check_availability
  check_availability_once m n s h = ground arith
