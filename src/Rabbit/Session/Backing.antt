-- ===== src/Rabbit/Session/Backing.antt =====
-- The real connectors and what the settings rely on.
use platform_configure.Prelude.{
  true, ℕ, ◌<◌, Bytes, ◌≡◌, refl, bytes_eq, Option, none, some, arith, if◌then◌else◌,
}
use platform_configure.Rabbit.Interface.{Answer, UserSettings, Permissions, RabbitConnector}
use platform_configure.Rabbit.Settings.Accounts.{IsBacked, accepted, is_refused}
use platform_configure.Rabbit.Settings.{key_of}
use platform_configure.Rabbit.Session.{
  World, Session, check_availability, skvs_delete, skvs_set, connect, with_broker, list_permissions,
  real_connectors,
}
use platform_configure.Rabbit.Session.Steady.{
  IsSteady, steady-check_availability, steady-connect, steady-with_broker,
}

-- What the program relies on: how the calls of the packages rabbit-hole and skvs/client change the
-- passwords in the broker and the values in the store.
pub record IsWorld {C W : Type 0} (w : World C W) (password value : Bytes → W → Option Bytes)
    : Type 0 where
  pub steady_password : (q : Bytes) → IsSteady w (password q)
  pub steady_value : (k : Bytes) → IsSteady w (value k)
  pub password-put :
      (c : C) (name q : Bytes) (u : UserSettings) (x : W)
      → accepted ((w.broker c).put_user name u x).0 ≡ true
      → password q ((w.broker c).put_user name u x).1
        ≡ (if bytes_eq name q then some u.password else password q x)
  pub password-put_refused :
      (c : C) (name q : Bytes) (u : UserSettings) (x : W)
      → is_refused ((w.broker c).put_user name u x).0 ≡ true
      → password q ((w.broker c).put_user name u x).1 ≡ password q x
  pub password-intn : (n : ℕ) (q : Bytes) (x : W) → password q (w.intn n x).1 ≡ password q x
  pub password-vhost :
      (c : C) (v q : Bytes) (x : W) → password q ((w.broker c).put_vhost v x).1 ≡ password q x
  pub password-rights :
      (c : C) (v n q : Bytes) (p : Permissions) (x : W)
      → password q ((w.broker c).update_permissions_in v n p x).1 ≡ password q x
  pub password-set : (k v q : Bytes) (x : W) → password q (w.skvs.set k v x).1 ≡ password q x
  pub value-put :
      (c : C) (n k : Bytes) (u : UserSettings) (x : W)
      → value k ((w.broker c).put_user n u x).1 ≡ value k x
  pub value-vhost :
      (c : C) (v k : Bytes) (x : W) → value k ((w.broker c).put_vhost v x).1 ≡ value k x
  pub value-rights :
      (c : C) (v n k : Bytes) (p : Permissions) (x : W)
      → value k ((w.broker c).update_permissions_in v n p x).1 ≡ value k x
  pub value-list :
      (c : C) (k : Bytes) (x : W) → value k ((w.broker c).list_permissions x).2 ≡ value k x
  pub value-delete_vhost :
      (c : C) (v k : Bytes) (x : W) → value k ((w.broker c).delete_vhost v x).1 ≡ value k x
  pub value-delete_user :
      (c : C) (n k : Bytes) (x : W) → value k ((w.broker c).delete_user n x).1 ≡ value k x
  pub value-intn : (n : ℕ) (k : Bytes) (x : W) → value k (w.intn n x).1 ≡ value k x
  pub value-set :
      (k v q : Bytes) (x : W)
      → (w.skvs.set k v x).0 ≡ none
      → value q (w.skvs.set k v x).1 ≡ (if bytes_eq k q then some v else value q x)
  pub value-set_failed :
      (k v q e : Bytes) (x : W)
      → (w.skvs.set k v x).0 ≡ some e
      → value q (w.skvs.set k v x).1 ≡ value q x
  -- Below the key of an app there are no keys.
  pub value-delete :
      (app q : Bytes) (x : W)
      → (w.skvs.delete (key_of app) x).0 ≡ none
      → value q (w.skvs.delete (key_of app) x).1
        ≡ (if bytes_eq (key_of app) q then none else value q x)
  pub value-delete_failed :
      (k q e : Bytes) (x : W)
      → (w.skvs.delete k x).0 ≡ some e
      → value q (w.skvs.delete k x).1 ≡ value q x
  pub intn-lt : (n : ℕ) (x : W) → 0 < n → (w.intn n x).0 < n

module _ {C W : Type 0} (w : World C W) (password value : Bytes → W → Option Bytes)
    (L : IsWorld w password value) where
  real_password-put :
      (name q : Bytes) (u : UserSettings) (s : Session C W)
      → let after = with_broker w (λ b. b.put_user name u) s in
        accepted after.0 ≡ true
        → password q after.1.world
          ≡ (if bytes_eq name q then some u.password else password q s.world)
  unfolding with_broker
  real_password-put name q u s ok = go (connect w s).1.con refl
    where
      s1 : Session C W
      s1 = (connect w s).1

      go :
          (con : Option C)
          → s1.con ≡ con
          → password q (with_broker w (λ b. b.put_user name u) s).1.world
            ≡ (if bytes_eq name q then some u.password else password q s.world)
      go none p = absurd (ground arith)
      go (some c) p = ground (
        arith,
        L.password-put c name q u s1.world,
        steady-connect w (password q) (L.steady_password q) s,
      )

  real_password-put_refused :
      (name q : Bytes) (u : UserSettings) (s : Session C W)
      → let after = with_broker w (λ b. b.put_user name u) s in
        is_refused after.0 ≡ true → password q after.1.world ≡ password q s.world
  unfolding with_broker
  real_password-put_refused name q u s ok = go (connect w s).1.con refl
    where
      s1 : Session C W
      s1 = (connect w s).1

      go :
          (con : Option C)
          → s1.con ≡ con
          → password q (with_broker w (λ b. b.put_user name u) s).1.world ≡ password q s.world
      go none p = absurd (ground arith)
      go (some c) p = ground (
        arith,
        L.password-put_refused c name q u s1.world,
        steady-connect w (password q) (L.steady_password q) s,
      )

  real_value-list :
      (k : Bytes) (s : Session C W) → value k (list_permissions w s).2.world ≡ value k s.world
  unfolding list_permissions
  real_value-list k s = go (connect w s).1.con refl
    where
      go :
          (con : Option C)
          → (connect w s).1.con ≡ con
          → value k (list_permissions w s).2.world ≡ value k s.world
      go none p = ground (arith, steady-connect w (value k) (L.steady_value k) s)
      go (some c) p = ground (
        arith,
        steady-connect w (value k) (L.steady_value k) s,
        L.value-list c k (connect w s).1.world,
      )

  real_set :
      (k v q : Bytes) (s : Session C W)
      → (skvs_set w k v s).0 ≡ none
      → value q (skvs_set w k v s).1.world ≡ (if bytes_eq k q then some v else value q s.world)
  unfolding skvs_set
  real_set k v q s ok =
      let s1 = (check_availability w 100 s).1 in
      ground (
        arith,
        L.value-set k v q s1.world,
        steady-check_availability w (value q) (L.steady_value q) 100 s,
      )

  real_set_failed :
      (k v q e : Bytes) (s : Session C W)
      → (skvs_set w k v s).0 ≡ some e
      → value q (skvs_set w k v s).1.world ≡ value q s.world
  unfolding skvs_set
  real_set_failed k v q e s failed =
      let s1 = (check_availability w 100 s).1 in
      ground (
        arith,
        L.value-set_failed k v q e s1.world,
        steady-check_availability w (value q) (L.steady_value q) 100 s,
      )

  real_password-set :
      (k v q : Bytes) (s : Session C W) → password q (skvs_set w k v s).1.world ≡ password q s.world
  unfolding skvs_set
  real_password-set k v q s =
      let s1 = (check_availability w 100 s).1 in
      ground (
        arith,
        L.password-set k v q s1.world,
        steady-check_availability w (password q) (L.steady_password q) 100 s,
      )

  real_delete :
      (app q : Bytes) (s : Session C W)
      → (skvs_delete w (key_of app) s).0 ≡ none
      → value q (skvs_delete w (key_of app) s).1.world
        ≡ (if bytes_eq (key_of app) q then none else value q s.world)
  unfolding skvs_delete
  real_delete app q s ok =
      let s1 = (check_availability w 100 s).1 in
      ground (
        arith,
        L.value-delete app q s1.world,
        steady-check_availability w (value q) (L.steady_value q) 100 s,
      )

  real_delete_failed :
      (k q e : Bytes) (s : Session C W)
      → (skvs_delete w k s).0 ≡ some e
      → value q (skvs_delete w k s).1.world ≡ value q s.world
  unfolding skvs_delete
  real_delete_failed k q e s failed =
      let s1 = (check_availability w 100 s).1 in
      ground (
        arith,
        L.value-delete_failed k q e s1.world,
        steady-check_availability w (value q) (L.steady_value q) 100 s,
      )

  -- A call of the broker that leaves a value, or a password, for every client.
  keeps_value :
      (k : Bytes) (call : RabbitConnector W → W → Answer × W) (s : Session C W)
      → ((c : C) (x : W) → value k (call (w.broker c) x).1 ≡ value k x)
      → value k (with_broker w call s).1.world ≡ value k s.world
  keeps_value k = steady-with_broker w (value k) (L.steady_value k)

  keeps_password :
      (q : Bytes) (call : RabbitConnector W → W → Answer × W) (s : Session C W)
      → ((c : C) (x : W) → password q (call (w.broker c) x).1 ≡ password q x)
      → password q (with_broker w call s).1.world ≡ password q s.world
  keeps_password q = steady-with_broker w (password q) (L.steady_password q)

  -- The real connectors keep passwords and values as the settings rely on it, through every
  -- retry, wait and lost connection. Assumed: the clients of the broker and of the store do,
  -- opening connections, waiting and reading change neither, and rand.Intn stays below its bound.
  pub real_connectors-IsBacked :
      IsBacked (real_connectors w) (λ q s. password q s.world) (λ k s. value k s.world)
  real_connectors-IsBacked = record {
    password-put = real_password-put;
    password-put_refused = real_password-put_refused;
    password-intn = λ n q s. L.password-intn n q s.world;
    password-vhost =
        λ v q s. keeps_password q (λ b. b.put_vhost v) s (λ c x. L.password-vhost c v q x);
    password-rights = λ v n q p s.
        keeps_password q (λ b. b.update_permissions_in v n p) s
          (λ c x. L.password-rights c v n q p x);
    password-set = real_password-set;
    value-put = λ n k u s. keeps_value k (λ b. b.put_user n u) s (λ c x. L.value-put c n k u x);
    value-vhost = λ v k s. keeps_value k (λ b. b.put_vhost v) s (λ c x. L.value-vhost c v k x);
    value-rights = λ v n k p s.
        keeps_value k (λ b. b.update_permissions_in v n p) s (λ c x. L.value-rights c v n k p x);
    value-intn = λ n k s. L.value-intn n k s.world;
    value-list = real_value-list;
    value-delete_vhost =
        λ v k s. keeps_value k (λ b. b.delete_vhost v) s (λ c x. L.value-delete_vhost c v k x);
    value-delete_user =
        λ n k s. keeps_value k (λ b. b.delete_user n) s (λ c x. L.value-delete_user c n k x);
    value-set = real_set;
    value-set_failed = real_set_failed;
    value-delete = real_delete;
    value-delete_failed = real_delete_failed;
    intn-lt = λ n s. L.intn-lt n s.world;
  }
