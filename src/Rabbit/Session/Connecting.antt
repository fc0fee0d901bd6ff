-- ===== src/Rabbit/Session/Connecting.antt =====
-- What `connect` reports.
use platform_configure.Prelude.{
  ℕ, zero, suc, codes, ◌++◌, Bytes, Err, ◌≡◌, ◌≢◌, refl, Option, none, some, arith, true, false,
  Bool,
}
use platform_configure.Rabbit.Session.{
  Made, client, failed, World, Session, get_or_create_credentials, attempts, connect,
}

module _ {C W : Type 0} (w : World C W) where
  -- There is an error or a client.
  abbrev kept : Err → Option C → Bool
  kept none none = false
  kept none (some c) = true
  kept (some e) con = true

  abbrev Keeps : ℕ → Bytes → Bytes → Bytes → Err → Option C → W → Type 0
  Keeps n host user passwd err con x =
      let after = attempts w n host user passwd err con x in kept after.0 after.1 ≡ true

  -- A round leaves an error or a client, whatever it starts from.
  round-Keeps :
      (n : ℕ) (host user passwd : Bytes)
      → ((err : Err) (con : Option C) (x : W)
          → kept err con ≡ true
          → Keeps n host user passwd err con x)
      → (err : Err) (con : Option C) (x : W) → Keeps (suc n) host user passwd err con x
  unfolding attempts
  round-Keeps n host user passwd later err con x = go (w.new_client host user passwd x).0 refl
    where
      x1 : W
      x1 = (w.new_client host user passwd x).1

      go :
          (made : Made C)
          → (w.new_client host user passwd x).0 ≡ made
          → Keeps (suc n) host user passwd err con x
      go (failed e) p = ground (arith, later (some e) none (w.sleep_3s x1) refl)
      go (client c) p = ground (arith, later none (some c) (w.sleep_3s (w.list_nodes c x1).2) refl)

  attempts-Keeps :
      (n : ℕ) (host user passwd : Bytes) (err : Err) (con : Option C) (x : W)
      → kept err con ≡ true
      → Keeps n host user passwd err con x
  unfolding attempts
  attempts-Keeps zero host user passwd err con x h = h
  attempts-Keeps (suc n) host user passwd err con x h =
      round-Keeps n host user passwd (attempts-Keeps n host user passwd) err con x

  attempts_lost :
      (n : ℕ) (host user passwd : Bytes) (con : Option C) (x : W)
      → ((x : W) → (c : C) × ((w.new_client host user passwd x).0 ≡ client c))
      → (attempts w n host user passwd none con x).0 ≡ none
  unfolding attempts
  attempts_lost zero host user passwd con x h = refl
  attempts_lost (suc n) host user passwd con x h =
      let (c, made) = h x in
      let (nodes, inner, x2) = w.list_nodes c (w.new_client host user passwd x).1 in
      ground (arith, attempts_lost n host user passwd (some c) (w.sleep_3s x2) h)

  -- A call of `connect` that returns no error leaves a client behind.
  pub connect_con : (s : Session C W) → (connect w s).0 ≡ none → (connect w s).1.con ≢ none
  unfolding connect
  connect_con s h = go s.con refl (connect w s).1.con refl
    where
      looked : Bytes × Err × W
      looked = w.container_ip (codes "rabbitmq") s.world

      credentials : Bytes × Bytes × Session C W
      credentials = get_or_create_credentials w (record s { world = looked.2 })

      host : Bytes
      host = codes "http://" ++ looked.0 ++ codes ":15672"

      tried : Keeps 200 host credentials.0 credentials.1 none none credentials.2.world
      tried =
          round-Keeps 199 host credentials.0 credentials.1
            (attempts-Keeps 199 host credentials.0 credentials.1) none none credentials.2.world

      go :
          (con : Option C)
          → s.con ≡ con
          → (after : Option C) → (connect w s).1.con ≡ after
          → (connect w s).1.con ≢ none
      go (some c) p after q n = ground arith
      go none p (some c) q n = cc
      go none p none q n = ground (arith, tried)

  -- If there is no client yet and making one never fails, `connect` returns the error of looking
  -- up the container and no other: whether a node of the broker ever runs does not show in its
  -- result.
  pub connect_lost :
      (s : Session C W)
      → ((host user passwd : Bytes) (x : W)
          → (c : C) × ((w.new_client host user passwd x).0 ≡ client c))
      → s.con ≡ none
      → (connect w s).0 ≡ (w.container_ip (codes "rabbitmq") s.world).1
  unfolding connect
  connect_lost s made fresh =
      let looked = w.container_ip (codes "rabbitmq") s.world in
      let credentials = get_or_create_credentials w (record s { world = looked.2 }) in
      let host = codes "http://" ++ looked.0 ++ codes ":15672" in
      ground (
        arith,
        attempts_lost 200 host credentials.0 credentials.1 none credentials.2.world
            (made host credentials.0 credentials.1),
      )
