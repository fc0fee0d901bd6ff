-- ===== src/Tests/Broker/Connecting.antt =====
-- Connections to the broker that are slow or fail.
use platform_configure.Prelude.{
  ℕ, ◌+◌, ltb, codes, ◌≡◌, ◌≢◌, refl, [], ◌∷◌, none, some, false, if◌then◌else◌,
}
use platform_configure.Rabbit.Session.{
  get_or_create_credentials, setting, skvs_get, attempts, client, World, Session, probe,
  check_availability, connect,
}
use platform_configure.Rabbit.Session.Connecting.{connect_con, connect_lost}
use platform_configure.Rabbit.Interface.{Answer}
use platform_configure.Prelude.{◌+◌, ◌≤◌, arith, ltb}
use platform_configure.Rabbit.Session.{
  failed, get_or_create_credentials, setting, skvs_get, attempts,
}
use platform_configure.Rabbit.Session.{all_nodes_running}
use platform_configure.Prelude.{some}
use platform_configure.Rabbit.Session.Finding.{Finds, missed_all, connect-Finds}
use platform_configure.Rabbit.Session.Waiting.{IsClock, waited-connect}

abbrev no_content : Answer
no_content = record { response = some 204; err = none }

-- The store answers from its third call on. A client can be made, and no node ever runs.
abbrev slow : World Unit ℕ
slow = record {
  skvs = record {
    delete = λ k n. (none, n);
    get = λ k n. ([], (if ltb n 2 then some (codes "no answer") else none), n + 1);
    set = λ k v n. (none, n);
  };
  container_ip = λ name n. (codes "172.17.0.2", none, n);
  new_client = λ host user passwd n. (client tt, n);
  list_nodes = λ c n. (false ∷ [], none, n);
  broker = λ c. record {
    put_vhost = λ v n. (no_content, n);
    delete_vhost = λ v n. (no_content, n);
    put_user = λ name u n. (no_content, n);
    delete_user = λ name n. (no_content, n);
    update_permissions_in = λ v name p n. (no_content, n);
    list_permissions = λ n. ([], none, n);
  };
  sleep_3s = λ n. n;
  sleep_3ns = λ n. n;
  intn = λ k n. (0, n);
}

abbrev start : Session Unit ℕ
start = record { world = 0; con = none; available = false }

connect_lost_example : (connect slow start).0 ≡ none
connect_lost_example = connect_lost slow start (λ host user passwd n. (tt, refl)) refl

connect_con_example : (connect slow start).1.con ≢ none
connect_con_example =
    connect_con slow start (connect_lost slow start (λ host user passwd n. (tt, refl)) refl)

-- No client can be made; the state counts the waits.
abbrev refusing : World Unit ℕ
refusing = record slow {
  skvs = record {
    delete = λ k n. (none, n);
    get = λ k n. (codes "guest", none, n);
    set = λ k v n. (none, n);
  };
  new_client = λ host user passwd n. (failed (codes "refused"), n);
  sleep_3s = λ n. n + 1;
}

refusing-IsClock : IsClock refusing (λ n. n)
refusing-IsClock = record {
  calm = record {
    steady-get = λ k x. refl;
    steady-container_ip = λ name x. refl;
    steady-new_client = λ host user passwd x. refl;
    steady-list_nodes = λ c x. refl;
    steady-sleep_3ns = λ x. refl;
  };
  waited-sleep_3s = λ x. omega arith;
}

-- All 200 rounds are waited for.
refusing_200 : (connect refusing start).1.world ≡ 200
unfolding connect get_or_create_credentials setting skvs_get check_availability probe attempts
refusing_200 = refl

waited-connect_example : (connect refusing start).1.world ≤ 200 + 0
waited-connect_example = waited-connect refusing (λ n. n) refusing-IsClock start

-- The node runs after two waits.
abbrev starting : World Unit ℕ
starting = record refusing {
  new_client = λ host user passwd n. (client tt, n);
  list_nodes = λ c n. (ltb 1 n ∷ [], none, n);
}

connect-Finds_example :
    (j : ℕ) × (d : Unit) × (j ≤ 2)
    × Finds starting
        (codes "http://172.17.0.2:15672")
        (codes "guest")
        (codes "guest")
        (missed_all starting (codes "http://172.17.0.2:15672") (codes "guest") (codes "guest") j 0)
        d
    × ((connect starting start).0 ≡ none)
    × ((connect starting start).1.con ≡ some d)
unfolding get_or_create_credentials setting skvs_get check_availability probe all_nodes_running
connect-Finds_example = connect-Finds starting start 2 tt refl refl (omega arith) (refl, refl, refl)
