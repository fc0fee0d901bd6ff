-- ===== src/Prelude/Table.antt =====
-- A map in memory: a list of keys with their values, where the first entry of a key counts.
use mathlib.Core.Path.{◌≡◌}
use mathlib.Core.Option.{Option, none, some}
use mathlib.Core.List.{List, [], ◌∷◌}
use native.Mathlib.Omega.{arith}
use platform_configure.Prelude.Compare.{if◌then◌else◌}
use platform_configure.Prelude.Text.{Bytes, bytes_eq, eq_of_bytes_eq}

abbrev pub Table : Type 0
Table = List (Bytes × Bytes)

abbrev pub lookup : Bytes → Table → Option Bytes
lookup q [] = none
lookup q ((k, v) ∷ t) = if bytes_eq k q then some v else lookup q t

abbrev pub erase : Bytes → Table → Table
erase q [] = []
erase q ((k, v) ∷ t) = if bytes_eq k q then erase q t else (k, v) ∷ erase q t

pub lookup-erase :
    (k q : Bytes) (t : Table) → lookup q (erase k t) ≡ (if bytes_eq k q then none else lookup q t)
lookup-erase k q [] = ground arith
lookup-erase k q ((p, v) ∷ t) =
    ground (arith, lookup-erase k q t, eq_of_bytes_eq p k, eq_of_bytes_eq k q, eq_of_bytes_eq p q)
