-- ===== src/Netconf/Linux/Laws.antt =====
-- What the real netLink and dbusUtil return.
use platform_configure.Prelude.{
  ℕ, ◌<◌, Bytes, Err, codes, ◌≡◌, ◌≢◌, ◌↔◌, ◌⊎◌, inl, inr, Bool, refl, bytes_eq, eq_of_bytes_eq,
  bytes_eq_refl, has_prefix, member, List, [], ◌∷◌, Option, none, some, true, false, arith,
}
use platform_configure.Prelude.Int.{ℤ, pos, negsuc}
use platform_configure.Netconf.Linux.{
  Link, Netlink, Dbus, is_hardware, hardware_names, get_list_of_routes, get_list_of_interfaces,
  restart_networkd,
}

-- A link that has a queue and is not wireless by its name.
abbrev pub IsHardware : Link → Type 0
IsHardware l = (n : ℕ) × (l.tx_q_len ≡ pos n) × (1 < n) × (has_prefix l.name (codes "wl") ≡ false)

-- There is such a link of the given name.
abbrev pub Listed : Bytes → List Link → Type 0
Listed q [] = ⊥
Listed q (l ∷ links) = (l.name ≡ q) × IsHardware l ⊎ Listed q links

is_hardware_sound : (l : Link) → is_hardware l ≡ true → IsHardware l
unfolding is_hardware
is_hardware_sound l h = go l.tx_q_len refl
  where
    go : (q : ℤ) → l.tx_q_len ≡ q → IsHardware l
    go (pos n) p = (n, p, ground arith, ground arith)
    go (negsuc n) p = absurd (ground arith)

is_hardware_complete : (l : Link) → IsHardware l → is_hardware l ≡ true
unfolding is_hardware
is_hardware_complete l (n, p, more, name) = ground arith

hardware_names_sound :
    (q : Bytes) (links : List Link) → member q (hardware_names links) ≡ true → Listed q links
unfolding hardware_names
hardware_names_sound q [] h = absurd (cc)
hardware_names_sound q (l ∷ links) h =
    go (is_hardware l) refl (bytes_eq l.name q) refl (hardware_names_sound q links)
  where
    go :
        (b : Bool)
        → is_hardware l ≡ b
        → (c : Bool) → bytes_eq l.name q ≡ c
        → (member q (hardware_names links) ≡ true → Listed q links)
        → Listed q (l ∷ links)
    go true p true e later = inl (eq_of_bytes_eq l.name q e, is_hardware_sound l p)
    go true p false e later = inr (later (ground arith))
    go false p c e later = inr (later (ground arith))

hardware_names_complete :
    (q : Bytes) (links : List Link) → Listed q links → member q (hardware_names links) ≡ true
unfolding hardware_names
hardware_names_complete q [] h = absurd h
hardware_names_complete q (l ∷ links) (inl (p, h)) =
    ground (arith, is_hardware_complete l h, bytes_eq_refl q)
hardware_names_complete q (l ∷ links) (inr h) = ground (arith, hardware_names_complete q links h)

module _ {S : Type 0} (net : Netlink S) where
  -- When the links can be listed, the interfaces are the names of the links with a queue of more
  -- than one entry whose name does not start with `wl`.
  pub get_list_of_interfaces_iff :
      (q : Bytes) (s : S)
      → (net.link_list s).1 ≡ none
      → (member q (get_list_of_interfaces net s).0 ≡ true) ↔ Listed q (net.link_list s).0
  unfolding get_list_of_interfaces
  get_list_of_interfaces_iff q s h =
      let links = (net.link_list s).0 in
      (
        (λ m. hardware_names_sound q links (ground arith)),
        (λ m. ground (arith, hardware_names_complete q links m)),
      )

  -- The routes of an interface are an error just when there is no such link, or when listing its
  -- routes failed and brought no route.
  pub get_list_of_routes_ok :
      (name : Bytes) (s : S)
      → let (link, err) = net.link_by_name name s in
        ((get_list_of_routes net name s).1 ≡ none)
        ↔ (err ≡ none) × (((net.route_list link s).1 ≡ none) ⊎ ((net.route_list link s).0 ≢ []))
  unfolding get_list_of_routes
  get_list_of_routes_ok name s = (
    (λ h. (ground arith, go (net.route_list link s).1 refl (net.route_list link s).0 refl h)),
    (λ h. some_route (net.route_list link s).0 refl h),
  )
    where
      link : Link
      link = (net.link_by_name name s).0

      Outcome : Type 0
      Outcome = ((net.route_list link s).1 ≡ none) ⊎ ((net.route_list link s).0 ≢ [])

      go :
          (failed : Err)
          → (net.route_list link s).1 ≡ failed
          → (routes : List (Option Bytes)) → (net.route_list link s).0 ≡ routes
          → (get_list_of_routes net name s).1 ≡ none
          → Outcome
      go none p routes q h = inl p
      go (some e) p [] q h = absurd (ground arith)
      go (some e) p (r ∷ rs) q h = inr (λ nil. cc)

      some_route :
          (routes : List (Option Bytes))
          → (net.route_list link s).0 ≡ routes
          → ((net.link_by_name name s).1 ≡ none) × Outcome
          → (get_list_of_routes net name s).1 ≡ none
      some_route [] q h = ground arith
      some_route (r ∷ rs) q h = ground arith

module _ {S : Type 0} (bus : Dbus S) where
  -- A restart of networkd succeeds just when the bus can be reached, accepts the job and reports
  -- it as done.
  pub restart_networkd_ok :
      (s : S)
      → let s1 = (bus.connect s).1 in
        let job = bus.restart_unit (codes "systemd-networkd.service") (codes "fail") s1 in
        ((restart_networkd bus s).0 ≡ none)
        ↔ ((bus.connect s).0 ≡ none) × (job.0 ≡ none) × (job.1 ≡ codes "done")
  unfolding restart_networkd
  restart_networkd_ok s =
      let s1 = (bus.connect s).1 in
      let job = bus.restart_unit (codes "systemd-networkd.service") (codes "fail") s1 in
      (
        (λ h. ground (arith, eq_of_bytes_eq job.1 (codes "done"))),
        (λ h. ground (arith, bytes_eq_refl job.1)),
      )
