-- ===== src/Rabbit/Session/Waiting.antt =====
-- How long `connect` waits.
use platform_configure.Prelude.{
  ℕ, zero, suc, Bytes, Err, codes, ◌≡◌, ◌≤◌, ◌+◌, ◌++◌, refl, Option, none, some, arith,
}
use platform_configure.Rabbit.Session.{
  Made, client, failed, World, Session, get_or_create_credentials, attempts, connect,
}
use platform_configure.Rabbit.Session.Steady.{IsCalm, steady-credentials}

-- What the program relies on: `waited` counts the waits of three seconds.
pub record IsClock {C W : Type 0} (w : World C W) (waited : W → ℕ) : Type 0 where
  pub calm : IsCalm w waited
  pub waited-sleep_3s : (x : W) → waited (w.sleep_3s x) ≡ suc (waited x)

module _ {C W : Type 0} (w : World C W) (waited : W → ℕ) (K : IsClock w waited) where
  -- In `n` rounds there are at most `n` waits.
  waited-attempts :
      (n : ℕ) (host user passwd : Bytes) (err : Err) (con : Option C) (x : W)
      → waited (attempts w n host user passwd err con x).2 ≤ n + waited x
  unfolding attempts
  waited-attempts zero host user passwd err con x = omega arith
  waited-attempts (suc n) host user passwd err con x =
      go (w.new_client host user passwd x).0 refl (waited-attempts n host user passwd)
    where
      x1 : W
      x1 = (w.new_client host user passwd x).1

      go :
          (made : Made C)
          → (w.new_client host user passwd x).0 ≡ made
          → ((err : Err) (con : Option C) (y : W)
              → waited (attempts w n host user passwd err con y).2 ≤ n + waited y)
          → waited (attempts w (suc n) host user passwd err con x).2 ≤ suc n + waited x
      go (failed e) p later = ground (
        arith,
        K.calm.steady-new_client host user passwd x,
        K.waited-sleep_3s x1,
        later (some e) none (w.sleep_3s x1),
      )
      go (client c) p later =
          let x2 = (w.list_nodes c x1).2 in
          ground (
            arith,
            K.calm.steady-new_client host user passwd x,
            K.calm.steady-list_nodes c x1,
            K.waited-sleep_3s x2,
            later none (some c) (w.sleep_3s x2),
          )

  -- Connecting to the broker waits at most 200 times for three seconds, whatever the broker and
  -- the store answer. Assumed: only that wait of three seconds moves the clock.
  pub waited-connect : (s : Session C W) → waited (connect w s).1.world ≤ 200 + waited s.world
  unfolding connect
  waited-connect s =
      let (ip, err, x) = w.container_ip (codes "rabbitmq") s.world in
      let (user, passwd, s1) = get_or_create_credentials w (record s { world = x }) in
      ground (
        arith,
        K.calm.steady-container_ip (codes "rabbitmq") s.world,
        steady-credentials w waited K.calm (record s { world = x }),
        waited-attempts 200 (codes "http://" ++ ip ++ codes ":15672") user passwd none none
            s1.world,
      )
