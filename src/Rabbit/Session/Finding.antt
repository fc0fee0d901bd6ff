-- ===== src/Rabbit/Session/Finding.antt =====
-- When `connect` finds the broker.
use platform_configure.Prelude.{
  ℕ, zero, suc, ◌<◌, ◌≤◌, Bytes, Err, codes, ◌++◌, ◌≡◌, refl, Bool, true, false, Option, none, some,
  arith,
}
use platform_configure.Rabbit.Session.{
  Made, client, failed, World, Session, all_nodes_running, get_or_create_credentials, attempts,
  connect,
}

module _ {C W : Type 0} (w : World C W) (host user passwd : Bytes) where
  -- In the world `x` a client can be made, and by its list all nodes run.
  abbrev pub Finds : W → C → Type 0
  Finds x c =
      let (made, x1) = w.new_client host user passwd x in
      let (nodes, inner, x2) = w.list_nodes c x1 in
      (made ≡ client c) × (inner ≡ none) × (all_nodes_running nodes ≡ true)

  -- What a round that does not connect leaves of the world.
  abbrev pub missed : W → W
  missed x =
      let (made, x1) = w.new_client host user passwd x in
      elim made [ failed e ↦ w.sleep_3s x1 | client c ↦ w.sleep_3s (w.list_nodes c x1).2 ]

  abbrev pub missed_all : ℕ → W → W
  missed_all zero x = x
  missed_all (suc n) x = missed_all n (missed x)

  -- One of `n` rounds ends with the given client.
  abbrev pub Connects : ℕ → Err × Option C × W → W → Type 0
  Connects i after x =
      (j : ℕ) × (c : C) × (j ≤ i) × Finds (missed_all j x) c × (after.0 ≡ none) × (after.1 ≡ some c)

  -- A round that does not find the broker leaves the search to the rounds after it.
  later-Connects :
      (i : ℕ) (c : C) (x : W) (after : Err × Option C × W)
      → (Finds x c → ⊥)
      → Finds (missed_all i x) c
      → ((i1 : ℕ) → i1 < i → Finds (missed_all i1 (missed x)) c → Connects i1 after (missed x))
      → Connects i after x
  later-Connects zero c x after miss found rest = absurd (miss found)
  later-Connects (suc i) c x after miss found rest =
      let (j, d, less, finds, ok, con) = rest i (omega arith) found in
      (suc j, d, omega arith, finds, ok, con)

  attempts-Connects :
      (n i : ℕ) (c : C) (err : Err) (con : Option C) (x : W)
      → i < n
      → Finds (missed_all i x) c
      → Connects i (attempts w n host user passwd err con x) x
  unfolding attempts
  attempts-Connects zero i c err con x below found = absurd (omega arith)
  attempts-Connects (suc n) i c err con x below found =
      go (w.new_client host user passwd x).0 refl (attempts-Connects n)
    where
      x1 : W
      x1 = (w.new_client host user passwd x).1

      Later : Type 0
      Later =
          (i : ℕ) (c : C) (err : Err) (con : Option C) (x : W)
          → i < n
          → Finds (missed_all i x) c
          → Connects i (attempts w n host user passwd err con x) x

      misses :
          (d : C)
          → (w.new_client host user passwd x).0 ≡ client d
          → Later
          → (Finds x c → ⊥)
          → attempts w (suc n) host user passwd err con x
            ≡ attempts w n host user passwd none (some d) (missed x)
          → Connects i (attempts w (suc n) host user passwd err con x) x
      misses d p later miss same =
          later-Connects i c x (attempts w (suc n) host user passwd err con x) miss found
            (λ i1 less f. rw same (later i1 c none (some d) (missed x) (omega arith) f))

      listed :
          (d : C)
          → (w.new_client host user passwd x).0 ≡ client d
          → Later
          → (inner : Err) → (w.list_nodes d x1).1 ≡ inner
          → (b : Bool) → all_nodes_running (w.list_nodes d x1).0 ≡ b
          → Connects i (attempts w (suc n) host user passwd err con x) x
      listed d p later none q true r = (0, d, omega arith, (p, q, r), ground arith, ground arith)
      listed d p later none q false r =
          misses d p later (λ (made, inner, running). absurd (ground arith)) (ground arith)
      listed d p later (some e) q b r =
          misses d p later (λ (made, inner, running). absurd (ground arith)) (ground arith)

      go :
          (made : Made C)
          → (w.new_client host user passwd x).0 ≡ made
          → Later
          → Connects i (attempts w (suc n) host user passwd err con x) x
      go (failed e) p later =
          let same : attempts w (suc n) host user passwd err con x
              ≡ attempts w n host user passwd (some e) none (missed x) =
            ground arith in
          later-Connects i c x (attempts w (suc n) host user passwd err con x)
            (λ (made, inner, running). absurd (ground arith)) found
            (λ i1 less f. rw same (later i1 c (some e) none (missed x) (omega arith) f))
      go (client d) p later =
          listed d p later (w.list_nodes d x1).1 refl (all_nodes_running (w.list_nodes d x1).0) refl

module _ {C W : Type 0} (w : World C W) where
  -- If there is no client yet, the container is found, and in one of the 200 rounds a client can
  -- be made and all nodes run, `connect` succeeds, with the client of that round or an earlier one
  -- that found the same.
  pub connect-Finds :
      (s : Session C W) (i : ℕ) (c : C)
      → let (ip, err, x) = w.container_ip (codes "rabbitmq") s.world in
        let (user, passwd, s1) = get_or_create_credentials w (record s { world = x }) in
        let host = codes "http://" ++ ip ++ codes ":15672" in
        s.con ≡ none
        → err ≡ none
        → i < 200
        → Finds w host user passwd (missed_all w host user passwd i s1.world) c
        → (j : ℕ) × (d : C) × (j ≤ i)
          × Finds w host user passwd (missed_all w host user passwd j s1.world) d
          × ((connect w s).0 ≡ none)
          × ((connect w s).1.con ≡ some d)
  unfolding connect
  connect-Finds s i c fresh looked below found =
      let (ip, err, x) = w.container_ip (codes "rabbitmq") s.world in
      let (user, passwd, s1) = get_or_create_credentials w (record s { world = x }) in
      let host = codes "http://" ++ ip ++ codes ":15672" in
      let (j, d, less, finds, ok, con) =
        attempts-Connects w host user passwd 200 i c none none s1.world below found in
      (j, d, less, finds, ground (arith, ok, con), ground (arith, ok, con))
