-- ===== src/Update/Flavor.antt =====
-- internal/features/update/flavor.go: the board flavor of the node.
use simplek8s_controller.Prelude.{
  Bool, true, false, not, ◌||◌, String, Option, none, some, List, [], ◌∷◌, str_eq, if◌then◌else◌,
}
use simplek8s_controller.Updatecore.Versions.{
  Release, parse_stored_kernel, known_flavor, resolve_flavor,
}
use simplek8s_controller.Updatecore.Store.{BootStore}
use simplek8s_controller.Update.World.{Feature, World, with_feature}

abbrev is_other : String → Option String → Bool
is_other flavor none = false
is_other flavor (some f) = not (str_eq f flavor)

-- Some file has another known flavor than the first.
unfoldable pub is_mixed : String → List String → Bool
is_mixed flavor [] = false
is_mixed flavor (f ∷ files) =
    is_other flavor (known_flavor (parse_stored_kernel f)) || is_mixed flavor files

abbrev pub resolved : String → Bool → Feature → Feature
resolved flavor mixed f = record f {
  flavor = flavor;
  flavor_known = true;
  flavor_warned = false;
  mix_warned = f.mix_warned || mixed;
}

-- The versions of the files of a flavor.
abbrev onto_own : String → Option Release → List String → List String
onto_own flavor none rest = rest
onto_own flavor (some r) rest = if str_eq r.flavor flavor then r.ts ∷ rest else rest

unfoldable pub own_versions : String → List String → List String
own_versions flavor [] = []
own_versions flavor (f ∷ files) =
    onto_own flavor (parse_stored_kernel f) (own_versions flavor files)

module _ {D : Type 0} (store : BootStore D) where
  unfoldable pub flavor_found : List String → World D → Option String × World D
  unfolding is_mixed
  flavor_found files w = elim (resolve_flavor files) [
    | none ↦ (none, with_feature w (record w.feature { flavor_warned = true }))
    | some flavor ↦
        (some flavor, with_feature w (resolved flavor (is_mixed flavor files) w.feature))
  ]

  unfoldable pub flavor_scanned : Option (List String) × D → World D → Option String × World D
  unfolding flavor_found
  flavor_scanned (none, d) w = (none, record w { disk = d })
  flavor_scanned (some files, d) w = flavor_found files (record w { disk = d })

  -- f.flavorOf
  unfoldable pub flavor_of : World D → Option String × World D
  unfolding flavor_scanned
  flavor_of w =
      if w.feature.flavor_known
      then (if str_eq w.feature.flavor "" then none else some w.feature.flavor, w)
      else flavor_scanned (store.kernels w.disk) w
