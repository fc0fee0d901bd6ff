-- ===== src/Rabbit/Session.antt =====
-- realRabbit and realSKVS of rabbitmq-manager.go, over the packages rabbit-hole, dockerutil and
-- skvs/client, and time.Sleep.
pub mod Connecting
pub mod Probing
pub mod Steady
pub mod Waiting
pub mod Finding
pub mod Backing
use platform_configure.Prelude.{
  ℕ, zero, suc, Bytes, Err, codes, Bool, true, false, ◌&&◌, List, [], ◌∷◌, ◌++◌, Option, none, some,
  if◌then◌else◌,
}
use platform_configure.Rabbit.Interface.{
  Answer, UserSettings, Permissions, PermissionInfo, RabbitConnector, SkvsConnector, Connectors,
}

-- What rabbithole.NewClient returns: a client, or an error and nil.
pub data Made (C : Type 0) : Type 0 where
  client : C → Made C
  failed : Bytes → Made C

-- The clients' calls. `list_nodes` tells of each node whether it runs; `sleep_3s` and `sleep_3ns`
-- are the two delays.
pub record World (C W : Type 0) : Type 0 where
  pub skvs : SkvsConnector W
  pub container_ip : Bytes → W → Bytes × Err × W
  pub new_client : Bytes → Bytes → Bytes → W → Made C × W
  pub list_nodes : C → W → List Bool × Err × W
  pub broker : C → RabbitConnector W
  pub sleep_3s : W → W
  pub sleep_3ns : W → W
  pub intn : ℕ → W → ℕ × W

-- The world, `rec.con` of realRabbit and `rec.available` of realSKVS.
pub record Session (C W : Type 0) : Type 0 where
  pub world : W
  pub con : Option C
  pub available : Bool

unfoldable pub all_true : List Bool → Bool
all_true [] = true
all_true (b ∷ bs) = b && all_true bs

-- `allNodesRunning`
unfoldable pub all_nodes_running : List Bool → Bool
unfolding all_true
all_nodes_running [] = false
all_nodes_running (b ∷ bs) = all_true (b ∷ bs)

module _ {C W : Type 0} (w : World C W) where
  -- The loop of `checkAvailability`.
  unfoldable pub probe : ℕ → W → Bool × W
  probe zero x = (false, x)
  probe (suc n) x =
      let (value, err, x1) = w.skvs.get (codes "hostname") x in
      let later = probe n (w.sleep_3ns x1) in elim err [ none ↦ (true, x1) | some e ↦ later ]

  unfoldable pub check_availability : ℕ → Session C W → Bool × Session C W
  check_availability retries s =
      let (found, x) = probe retries s.world in
      if s.available then (true, s) else (found, record s { world = x; available = found })

  unavailable : Bytes → Bytes → Bytes
  unavailable verb key =
      codes "Can't " ++ verb ++ codes " '" ++ key ++ codes "', SKVS appears to be unavailable"

  unfoldable pub skvs_delete : Bytes → Session C W → Err × Session C W
  unfolding unavailable
  skvs_delete key s =
      let (ok, s1) = check_availability 100 s in
      let (err, x) = w.skvs.delete key s1.world in
      if ok then (err, record s1 { world = x }) else (some (unavailable (codes "DELETE") key), s1)

  unfoldable pub skvs_get : Bytes → Session C W → Bytes × Err × Session C W
  unfolding unavailable
  skvs_get key s =
      let (ok, s1) = check_availability 100 s in
      let (value, err, x) = w.skvs.get key s1.world in
      if ok
      then (value, err, record s1 { world = x })
      else ([], some (unavailable (codes "GET") key), s1)

  unfoldable pub skvs_set : Bytes → Bytes → Session C W → Err × Session C W
  unfolding unavailable
  skvs_set key value s =
      let (ok, s1) = check_availability 100 s in
      let (err, x) = w.skvs.set key value s1.world in
      if ok then (err, record s1 { world = x }) else (some (unavailable (codes "SET") key), s1)

  -- A setting, or `guest`.
  unfoldable pub setting : Bytes → Session C W → Bytes × Session C W
  setting key s =
      let (value, err, s1) = skvs_get (codes "rabbitmq/" ++ key) s in
      elim err [ some e ↦ (codes "guest", s1) | none ↦ (value, s1) ]

  unfoldable pub get_or_create_credentials : Session C W → Bytes × Bytes × Session C W
  unfolding setting
  get_or_create_credentials s =
      let (user, s1) = setting (codes "user") s in
      let (passwd, s2) = setting (codes "passwd") s1 in (user, passwd, s2)

  -- The loop of `connect`. `rec.con` and `err` are set in every round; the error of `ListNodes`
  -- is one of an inner scope.
  unfoldable pub attempts : ℕ → Bytes → Bytes → Bytes → Err → Option C → W → Err × Option C × W
  attempts zero host user passwd err con x = (err, con, x)
  attempts (suc n) host user passwd err con x =
      let (made, x1) = w.new_client host user passwd x in
      elim made [
        | failed e ↦ attempts n host user passwd (some e) none (w.sleep_3s x1)
        | client c ↦
            let (nodes, inner, x2) = w.list_nodes c x1 in
            let later = attempts n host user passwd none (some c) (w.sleep_3s x2) in
            elim inner [
              | some e ↦ later
              | none ↦ if all_nodes_running nodes then (none, some c, x2) else later
            ]
      ]

  unfoldable pub connect : Session C W → Err × Session C W
  connect s =
      let (ip, err, x) = w.container_ip (codes "rabbitmq") s.world in
      let (user, passwd, s1) = get_or_create_credentials (record s { world = x }) in
      let (last, con, x1) =
        attempts 200 (codes "http://" ++ ip ++ codes ":15672") user passwd none none s1.world in
      elim s.con [
        | some c ↦ (none, s)
        | none ↦ elim err [
          | some e ↦ (some e, record s { world = x })
          | none ↦ (last, record s1 { world = x1; con = con })
        ]
      ]

  -- `rec.con.…`, called when `connect` returns no error. A nil client cannot be called; `connect`
  -- leaves none behind then.
  unfoldable pub with_broker :
      (RabbitConnector W → W → Answer × W) → Session C W → Answer × Session C W
  with_broker call s =
      let (err, s1) = connect s in
      elim err [
        | some e ↦ (record { response = none; err = some e }, s1)
        | none ↦ elim s1.con [
          | none ↦ (
            record {
              response = none;
              err = some (codes "invalid memory address or nil pointer dereference");
            },
            s1,
          )
          | some c ↦
              let (answer, x) = call (w.broker c) s1.world in (answer, record s1 { world = x })
        ]
      ]

  unfoldable pub list_permissions : Session C W → List PermissionInfo × Err × Session C W
  list_permissions s =
      let (err, s1) = connect s in
      elim err [
        | some e ↦ ([], some e, s1)
        | none ↦ elim s1.con [
          | none ↦ ([], some (codes "invalid memory address or nil pointer dereference"), s1)
          | some c ↦
              let (perms, result, x) = (w.broker c).list_permissions s1.world in
              (perms, result, record s1 { world = x })
        ]
      ]

  -- realRabbit
  abbrev pub real_rabbit : RabbitConnector (Session C W)
  real_rabbit = record {
    put_vhost = λ name. with_broker (λ b. b.put_vhost name);
    delete_vhost = λ name. with_broker (λ b. b.delete_vhost name);
    put_user = λ name u. with_broker (λ b. b.put_user name u);
    delete_user = λ name. with_broker (λ b. b.delete_user name);
    update_permissions_in = λ vhost name p. with_broker (λ b. b.update_permissions_in vhost name p);
    list_permissions = list_permissions;
  }

  -- realSKVS
  abbrev pub real_skvs : SkvsConnector (Session C W)
  real_skvs = record { delete = skvs_delete; get = skvs_get; set = skvs_set }

  -- The variables `r` and `s` as they are initialised, and math/rand.
  abbrev pub real_connectors : Connectors (Session C W)
  real_connectors = record {
    r = real_rabbit;
    s = real_skvs;
    intn = λ n s. let (i, x) = w.intn n s.world in (i, record s { world = x });
  }
