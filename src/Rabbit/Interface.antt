-- ===== src/Rabbit/Interface.antt =====
-- What the operations of rabbitmq-manager.go call: rabbitConnector, skvsConnector and math/rand.
-- `S` is the state of the machine.
use platform_configure.Prelude.{ℕ, Bytes, Err, List, Option}

pub record UserSettings : Type 0 where
  pub name : Bytes
  pub password : Bytes
  pub tags : Bytes

pub record Permissions : Type 0 where
  pub configure : Bytes
  pub write : Bytes
  pub read : Bytes

pub record PermissionInfo : Type 0 where
  pub user : Bytes
  pub vhost : Bytes
  pub granted : Permissions

-- `(*http.Response, error)`: the status code of the response, if there is one. A request that the
-- broker refuses has a response with such a status, and no error.
pub record Answer : Type 0 where
  pub response : Option ℕ
  pub err : Err

-- The settings of a new virtual host are empty.
pub record RabbitConnector (S : Type 0) : Type 0 where
  pub put_vhost : Bytes → S → Answer × S
  pub delete_vhost : Bytes → S → Answer × S
  pub put_user : Bytes → UserSettings → S → Answer × S
  pub delete_user : Bytes → S → Answer × S
  pub update_permissions_in : Bytes → Bytes → Permissions → S → Answer × S
  pub list_permissions : S → List PermissionInfo × Err × S

pub record SkvsConnector (S : Type 0) : Type 0 where
  pub delete : Bytes → S → Err × S
  pub get : Bytes → S → Bytes × Err × S
  pub set : Bytes → Bytes → S → Err × S

-- The variables `r` and `s`, and rand.Intn, seeded with the time.
pub record Connectors (S : Type 0) : Type 0 where
  pub r : RabbitConnector S
  pub s : SkvsConnector S
  pub intn : ℕ → S → ℕ × S
