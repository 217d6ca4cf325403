-- ===== src/Prelude/Maps.antt =====
-- Go's `map[string]V` as an association list: its keys are texts.
use mathlib.Core.Path.{◌≡◌, refl}
use mathlib.Core.List.{List, [], ◌∷◌}
use mathlib.Core.Option.{Option, none, some}
use native.Mathlib.Omega.{arith}
use teploy_sandbox.Prelude.Tests.{if◌then◌else◌}
use teploy_sandbox.Prelude.Strings.{Text, text_eq, text_eq_iff, text_eq_refl}

abbrev pub Table : Type 0 → Type 0
Table V = List (Text × V)

module _ {V : Type 0} where
  -- `value, ok := table[key]`.
  unfoldable pub lookup : Text → Table V → Option V
  lookup key [] = none
  lookup key (entry ∷ rest) = if text_eq entry.0 key then some entry.1 else lookup key rest

  -- `table[key] = value`.
  unfoldable pub insert : Text → V → Table V → Table V
  insert key value [] = (key, value) ∷ []
  insert key value (entry ∷ rest) =
      if text_eq entry.0 key then (key, value) ∷ rest else entry ∷ insert key value rest

  -- `delete(table, key)`.
  unfoldable pub erase : Text → Table V → Table V
  erase key [] = []
  erase key (entry ∷ rest) =
      let kept = erase key rest in if text_eq entry.0 key then kept else entry ∷ kept

  -- Reading any key behind a write, and behind a deletion.
  pub lookup-insert :
      (key asked : Text) (value : V) (table : Table V)
      → lookup asked (insert key value table)
        ≡ (if text_eq key asked then some value else lookup asked table)
  unfolding lookup insert
  lookup-insert key asked value [] = refl
  lookup-insert key asked value (entry ∷ rest) = ground (
    arith,
    lookup-insert key asked value rest,
    text_eq_iff entry.0 asked,
    text_eq_iff entry.0 key,
    text_eq_iff key asked,
  )

  pub lookup-erase :
      (key asked : Text) (table : Table V)
      → lookup asked (erase key table) ≡ (if text_eq key asked then none else lookup asked table)
  unfolding lookup erase
  lookup-erase key asked [] = ground arith
  lookup-erase key asked (entry ∷ rest) = ground (
    arith,
    lookup-erase key asked rest,
    text_eq_iff entry.0 asked,
    text_eq_iff entry.0 key,
    text_eq_iff key asked,
  )

  pub lookup-insert_self :
      (key : Text) (value : V) (table : Table V) → lookup key (insert key value table) ≡ some value
  lookup-insert_self key value table = simp (lookup-insert, text_eq_refl)
