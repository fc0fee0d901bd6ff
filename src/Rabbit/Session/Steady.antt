-- ===== src/Rabbit/Session/Steady.antt =====
-- What connecting leaves as it is.
use platform_configure.Prelude.{
  ℕ, zero, suc, Bytes, Err, codes, ◌≡◌, refl, ◌++◌, Option, none, some, arith,
}
use platform_configure.Rabbit.Interface.{Answer, RabbitConnector}
use platform_configure.Rabbit.Session.{
  Made, client, failed, World, Session, probe, check_availability, skvs_get,
  get_or_create_credentials, setting, attempts, connect, with_broker,
}

-- What the program relies on: `view` is something in the world that looking up and opening a
-- connection, and reading the store leave as it is,
pub record IsCalm {C W V : Type 0} (w : World C W) (view : W → V) : Type 0 where
  pub steady-get : (k : Bytes) (x : W) → view (w.skvs.get k x).2 ≡ view x
  pub steady-container_ip : (name : Bytes) (x : W) → view (w.container_ip name x).2 ≡ view x
  pub steady-new_client :
      (host user passwd : Bytes) (x : W) → view (w.new_client host user passwd x).1 ≡ view x
  pub steady-list_nodes : (c : C) (x : W) → view (w.list_nodes c x).2 ≡ view x
  pub steady-sleep_3ns : (x : W) → view (w.sleep_3ns x) ≡ view x

-- and waiting too.
pub record IsSteady {C W V : Type 0} (w : World C W) (view : W → V) : Type 0 where
  pub calm : IsCalm w view
  pub steady-sleep_3s : (x : W) → view (w.sleep_3s x) ≡ view x

module _ {C W V : Type 0} (w : World C W) (view : W → V) (Y : IsCalm w view) where
  steady-probe : (n : ℕ) (x : W) → view (probe w n x).1 ≡ view x
  unfolding probe
  steady-probe zero x = refl
  steady-probe (suc n) x =
      let x1 = (w.skvs.get (codes "hostname") x).2 in
      ground (
        arith,
        Y.steady-get (codes "hostname") x,
        Y.steady-sleep_3ns x1,
        steady-probe n (w.sleep_3ns x1),
      )

  steady-check_calm :
      (n : ℕ) (s : Session C W) → view (check_availability w n s).1.world ≡ view s.world
  unfolding check_availability
  steady-check_calm n s = ground (arith, steady-probe n s.world)

  pub steady-skvs_get : (k : Bytes) (s : Session C W) → view (skvs_get w k s).2.world ≡ view s.world
  unfolding skvs_get
  steady-skvs_get k s =
      let s1 = (check_availability w 100 s).1 in
      ground (arith, steady-check_calm 100 s, Y.steady-get k s1.world)

  steady-setting : (k : Bytes) (s : Session C W) → view (setting w k s).1.world ≡ view s.world
  unfolding setting
  steady-setting k s = ground (arith, steady-skvs_get (codes "rabbitmq/" ++ k) s)

  pub steady-credentials :
      (s : Session C W) → view (get_or_create_credentials w s).2.world ≡ view s.world
  unfolding get_or_create_credentials
  steady-credentials s = ground (
    arith,
    steady-setting (codes "user") s,
    steady-setting (codes "passwd") (setting w (codes "user") s).1,
  )

module _ {C W V : Type 0} (w : World C W) (view : W → V) (Y : IsSteady w view) where
  pub steady-check_availability :
      (n : ℕ) (s : Session C W) → view (check_availability w n s).1.world ≡ view s.world
  steady-check_availability = steady-check_calm w view Y.calm

  steady-attempts :
      (n : ℕ) (host user passwd : Bytes) (err : Err) (con : Option C) (x : W)
      → view (attempts w n host user passwd err con x).2 ≡ view x
  unfolding attempts
  steady-attempts zero host user passwd err con x = refl
  steady-attempts (suc n) host user passwd err con x =
      go (w.new_client host user passwd x).0 refl (steady-attempts n host user passwd)
    where
      x1 : W
      x1 = (w.new_client host user passwd x).1

      go :
          (made : Made C)
          → (w.new_client host user passwd x).0 ≡ made
          → ((err : Err) (con : Option C) (y : W)
              → view (attempts w n host user passwd err con y).2 ≡ view y)
          → view (attempts w (suc n) host user passwd err con x).2 ≡ view x
      go (failed e) p later = ground (
        arith,
        Y.calm.steady-new_client host user passwd x,
        Y.steady-sleep_3s x1,
        later (some e) none (w.sleep_3s x1),
      )
      go (client c) p later =
          let x2 = (w.list_nodes c x1).2 in
          ground (
            arith,
            Y.calm.steady-new_client host user passwd x,
            Y.calm.steady-list_nodes c x1,
            Y.steady-sleep_3s x2,
            later none (some c) (w.sleep_3s x2),
          )

  pub steady-connect : (s : Session C W) → view (connect w s).1.world ≡ view s.world
  unfolding connect
  steady-connect s =
      let (ip, err, x) = w.container_ip (codes "rabbitmq") s.world in
      let (user, passwd, s1) = get_or_create_credentials w (record s { world = x }) in
      ground (
        arith,
        Y.calm.steady-container_ip (codes "rabbitmq") s.world,
        steady-credentials w view Y.calm (record s { world = x }),
        steady-attempts 200 (codes "http://" ++ ip ++ codes ":15672") user passwd none none
            s1.world,
      )

  -- A call of the broker that leaves the view leaves it behind `connect` too.
  pub steady-with_broker :
      (call : RabbitConnector W → W → Answer × W) (s : Session C W)
      → ((c : C) (x : W) → view (call (w.broker c) x).1 ≡ view x)
      → view (with_broker w call s).1.world ≡ view s.world
  unfolding with_broker
  steady-with_broker call s kept = go (connect w s).1.con refl
    where
      go :
          (con : Option C)
          → (connect w s).1.con ≡ con
          → view (with_broker w call s).1.world ≡ view s.world
      go none p = ground (arith, steady-connect s)
      go (some c) p = ground (arith, steady-connect s, kept c (connect w s).1.world)
