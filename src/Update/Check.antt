-- ===== src/Update/Check.antt =====
-- internal/features/update/check.go: the release check; and `doCheck` of update.go.
use Prim.Native.String.{◌++◌ as concat}
use simplek8s_controller.Prelude.{
  ℕ, ◌+◌, Bool, true, false, not, ◌&&◌, ◌||◌, String, Option, none, some, [], ◌∷◌, Dict, lookup,
  insert, str_eq, if◌then◌else◌,
}
use simplek8s_controller.Stdlib.Text.{lit}
use simplek8s_controller.Stdlib.Json.{Raw, text, raw_is_empty}
use simplek8s_controller.Kube.Types.{Node}
use simplek8s_controller.Nodestate.Update.{parse_update}
use simplek8s_controller.Reboot.World.{is_noted}
use simplek8s_controller.Config.{Config}
use simplek8s_controller.Updatecore.Versions.{
  Release, parse_kernel_release, newer_ts, running_version, artifact_file_name,
}
use simplek8s_controller.Updatecore.Index.{parse_index}
use simplek8s_controller.Update.World.{World, Env, event, note_event, with_feature}

pub record CheckResult : Type 0 where
  pub url : Raw
  pub arch : String
  pub latest : String
  pub running : String
  pub available : Bool
  pub artifact : String
  pub checksum : String
  pub sums : Dict String

abbrev pub index_file : String
index_file = "SHA256SUMS"

abbrev pub index_signature : String
index_signature = "SHA256SUMS.gpg"

abbrev newer_release : String → Option Release → String → String
newer_release arch none latest = latest
newer_release arch (some r) latest =
    if not (str_eq r.flavor arch)
    then latest
    else if str_eq latest "" || newer_ts r.ts latest
    then r.ts
    else latest

-- The loop over the sums, from a latest version on.
unfoldable pub latest_of : String → Dict String → String → String
latest_of arch [] latest = latest
latest_of arch (entry ∷ sums) latest =
    latest_of arch sums (newer_release arch (parse_kernel_release entry.0) latest)

abbrev pub or_empty : Option String → String
or_empty none = ""
or_empty (some s) = s

-- The result of a verified index.
unfoldable pub check_result : Node → Raw → String → Dict String → CheckResult
unfolding latest_of
check_result node url flavor sums =
    let latest = latest_of flavor sums "" in
    let running = running_version node.kernel_version in
    let some_latest = not (str_eq latest "") in
    let artifact = if some_latest then artifact_file_name latest flavor else "" in
    record {
      url = url;
      arch = flavor;
      latest = latest;
      running = running;
      available = some_latest && (str_eq running "" || newer_ts latest running);
      artifact = artifact;
      checksum = if some_latest then or_empty (lookup artifact sums) else "";
      sums = sums;
    }

-- The sums of an index that is verified by its signature.
unfoldable pub verified_sums : Env → ℕ → Option String → Option String → Option (Dict String)
verified_sums env n (some content) (some sig) =
    if env.verified n content sig then parse_index content else none
verified_sums env n _ _ = none

-- The index at a URL, with the fetches from number `n` on.
unfoldable pub fetch_index : Env → ℕ → Raw → Option (Dict String)
unfolding verified_sums
fetch_index env n url =
    verified_sums env n (env.fetch n url index_file) (env.fetch (n + 1) url index_signature)

module _ {D : Type 0} where
  -- f.Check
  unfoldable pub check : Env → Node → Raw → String → World D → Option CheckResult × World D
  unfolding fetch_index check_result
  check env node url flavor w =
      if raw_is_empty url || str_eq flavor ""
      then (none, w)
      else elim (fetch_index env w.fetches url) [
        | none ↦ (none, record w { fetches = w.fetches + 2 })
        | some sums ↦
            (some (check_result node url flavor sums), record w { fetches = w.fetches + 2 })
      ]

  -- UpdateAvailable, once per version
  unfoldable pub note_available : Node → CheckResult → World D → World D
  note_available node res w =
      if res.available && not (is_noted (lookup res.latest w.feature.avail_seen))
      then event node.name "UpdateAvailable" false (
          with_feature w
            (record w.feature { avail_seen = insert res.latest true w.feature.avail_seen }))
      else w

  unfoldable pub note_check_error : Node → Bool → World D → World D
  unfolding note_event
  note_check_error node active w =
      note_event (concat "checkerror:" node.name) node.name "UpdateCheckError" true active w

  unfoldable pub checked : Node → Option CheckResult × World D → Option CheckResult × World D
  unfolding note_available note_check_error
  checked node (none, w) = (none, note_check_error node true w)
  checked node (some res, w) = (some res, note_check_error node false (note_available node res w))

  -- f.doCheck
  unfoldable pub do_check : Env → Node → Config → String → World D → Option CheckResult × World D
  unfolding check checked
  do_check env node fc flavor w =
      let own = (parse_update node.annotations).update_url in
      let url = if raw_is_empty own then text (lit fc.update_url) else own in
      checked node (check env node url flavor w)
