-- ===== src/Prelude/Maps.antt =====
-- Go's maps with string keys, as association lists.
use Prim.Native.String.{String}
use text.Mathlib.Text.{◌==◌ as str_eq}
use text.Mathlib.TextEquality.{eq_iff}
use mathlib.Core.Path.{◌≡◌, refl}
use mathlib.Core.Option.{Option, none, some}
use mathlib.Core.List.{List, [], ◌∷◌}
use native.Mathlib.Omega.{arith}
use simplek8s_controller.Prelude.Tests.{if◌then◌else◌}

abbrev pub Dict {ℓ} : Type ℓ → Type ℓ
Dict V = List (String × V)

module _ {ℓ} {V : Type ℓ} where
  -- m[key], with whether the key is there
  unfoldable pub lookup : String → Dict V → Option V
  lookup key [] = none
  lookup key (entry ∷ rest) = if str_eq entry.0 key then some entry.1 else lookup key rest

  -- m[key] = value
  unfoldable pub insert : String → V → Dict V → Dict V
  insert key value [] = (key, value) ∷ []
  insert key value (entry ∷ rest) =
      let changed = insert key value rest in
      if str_eq entry.0 key then (key, value) ∷ rest else entry ∷ changed

  -- delete(m, key)
  unfoldable pub erase : String → Dict V → Dict V
  erase key [] = []
  erase key (entry ∷ rest) =
      let left = erase key rest in if str_eq entry.0 key then left else entry ∷ left

  pub lookup-insert :
      (written read : String) (value : V) (m : Dict V)
      → lookup read (insert written value m)
        ≡ (if str_eq written read then some value else lookup read m)
  unfolding lookup insert
  lookup-insert written read value [] = refl
  lookup-insert written read value (entry ∷ rest) = ground (
    arith,
    lookup-insert written read value rest,
    eq_iff entry.0 written,
    eq_iff written read,
    eq_iff entry.0 read,
  )

  pub lookup-erase :
      (gone read : String) (m : Dict V)
      → lookup read (erase gone m) ≡ (if str_eq gone read then none else lookup read m)
  unfolding lookup erase
  lookup-erase gone read [] = ground arith
  lookup-erase gone read (entry ∷ rest) = ground (
    arith,
    lookup-erase gone read rest,
    eq_iff entry.0 gone,
    eq_iff gone read,
    eq_iff entry.0 read,
  )

pub ruleset dict_laws = (lookup-insert, lookup-erase)
