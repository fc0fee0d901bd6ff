-- ===== src/Rabbit/Memory.antt =====
-- A broker and a store in memory that meet the assumed laws.
use platform_configure.Prelude.{
  ℕ, some, ltb, arith, if◌then◌else◌, Bytes, codes, true, Err, refl, [], ◌∷◌, Option, none,
}
use platform_configure.Prelude.Table.{Table, lookup, erase, lookup-erase}
use platform_configure.Rabbit.Interface.{Answer, Connectors}
use platform_configure.Rabbit.Settings.{key_of}
use platform_configure.Rabbit.Settings.Accounts.{IsBacked}
use platform_configure.Rabbit.Session.{client, World}
use platform_configure.Rabbit.Session.Backing.{IsWorld}

-- The passwords in the broker, and the store.
abbrev pub Backend : Type 0
Backend = Table × Table

abbrev pub password : Bytes → Backend → Option Bytes
password q s = lookup q s.0

abbrev pub value : Bytes → Backend → Option Bytes
value k s = lookup k s.1

abbrev answer : ℕ → Err → Answer
answer code failed = record { response = some code; err = failed }

-- The broker answers PutUser with the given status code, and permissions have the given outcome;
-- every drawn number is 0.
abbrev pub backend : ℕ → Err → Connectors Backend
backend code rights = record {
  r = record {
    put_vhost = λ v s. (answer 204 none, s);
    delete_vhost = λ v s. (answer 204 none, s);
    put_user =
        λ name u s. (answer code none, if ltb code 300 then ((name, u.password) ∷ s.0, s.1) else s);
    delete_user = λ name s. (answer 204 none, (erase name s.0, s.1));
    update_permissions_in = λ v n p s. (answer 204 rights, s);
    list_permissions = λ s. ([], none, s);
  };
  s = record {
    delete = λ k s. (none, (s.0, erase k s.1));
    get = λ k s. ([], none, s);
    set = λ k v s. (none, (s.0, (k, v) ∷ s.1));
  };
  intn = λ n s. (0, s);
}

-- They meet them.
pub backend-IsBacked : (code : ℕ) (rights : Err) → IsBacked (backend code rights) password value
backend-IsBacked code rights = record {
  password-put = λ name q u s h. ground arith;
  password-put_refused = λ name q u s h. ground arith;
  password-intn = λ n q s. refl;
  password-vhost = λ v q s. refl;
  password-rights = λ v n q p s. refl;
  password-set = λ k v q s. refl;
  value-put = λ n k u s. ground arith;
  value-vhost = λ v k s. refl;
  value-rights = λ v n k p s. refl;
  value-intn = λ n k s. refl;
  value-list = λ k s. refl;
  value-delete_vhost = λ v k s. refl;
  value-delete_user = λ n k s. refl;
  value-set = λ k v q s h. refl;
  value-set_failed = λ k v q e s h. absurd (cc);
  value-delete = λ app q s h. lookup-erase (key_of app) q s.1;
  value-delete_failed = λ k q e s h. absurd (cc);
  intn-lt = λ n s h. h;
}

-- A world in which a connection is made at once.
abbrev pub near : ℕ → Err → World Unit Backend
near code rights = record {
  skvs = (backend code rights).s;
  container_ip = λ name x. (codes "172.17.0.2", none, x);
  new_client = λ host user passwd x. (client tt, x);
  list_nodes = λ c x. (true ∷ [], none, x);
  broker = λ c. (backend code rights).r;
  sleep_3s = λ x. x;
  sleep_3ns = λ x. x;
  intn = (backend code rights).intn;
}

-- It meets them.
pub near-IsWorld : (code : ℕ) (rights : Err) → IsWorld (near code rights) password value
near-IsWorld code rights = record {
  steady_password = λ q. record {
    calm = record {
      steady-get = λ k x. refl;
      steady-container_ip = λ name x. refl;
      steady-new_client = λ host user passwd x. refl;
      steady-list_nodes = λ c x. refl;
      steady-sleep_3ns = λ x. refl;
    };
    steady-sleep_3s = λ x. refl;
  };
  steady_value = λ k. record {
    calm = record {
      steady-get = λ k x. refl;
      steady-container_ip = λ name x. refl;
      steady-new_client = λ host user passwd x. refl;
      steady-list_nodes = λ c x. refl;
      steady-sleep_3ns = λ x. refl;
    };
    steady-sleep_3s = λ x. refl;
  };
  password-put = λ c name q u x h. ground arith;
  password-put_refused = λ c name q u x h. ground arith;
  password-intn = λ n q x. refl;
  password-vhost = λ c v q x. refl;
  password-rights = λ c v n q p x. refl;
  password-set = λ k v q x. refl;
  value-put = λ c n k u x. ground arith;
  value-vhost = λ c v k x. refl;
  value-rights = λ c v n k p x. refl;
  value-list = λ c k x. refl;
  value-delete_vhost = λ c v k x. refl;
  value-delete_user = λ c n k x. refl;
  value-intn = λ n k x. refl;
  value-set = λ k v q x h. refl;
  value-set_failed = λ k v q e x h. absurd (cc);
  value-delete = λ app q x h. lookup-erase (key_of app) q x.1;
  value-delete_failed = λ k q e x h. absurd (cc);
  intn-lt = λ n x h. h;
}
