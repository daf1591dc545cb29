-- ===== src/Tests/Update.antt =====
-- internal/update on a release that is checked, staged, installed and taken back.
use apipact_agent.Prelude.{
  String, ◌≡◌, refl, ◌≢◌, ◌↔◌, ◌⊎◌, true, false, none, some, [], ◌∷◌, ok, err, is_some, All,
}
use apipact_agent.Prelude.Int.{pos}
use apipact_agent.Prelude.Dict.{lookup, erase, insert}
use apipact_agent.Executor.Text.{equal_fold, fold_code}
use apipact_agent.Tests.{texts_differ}
use apipact_agent.Update.Version.{parse_semver, newer_numbers, is_newer, should_update}
use apipact_agent.Update.Version.Order.{no_update_cycle}
use apipact_agent.Update.Manifest.{fetch_manifest, check_worker, Manifest, Got, Release, response}
use apipact_agent.Update.Manifest.Trust.{fetch_manifest-ok_iff, Vouched}
use apipact_agent.Update.Swap.{
  Files, previous, promote, rollback, stage_worker, PromoteFaults, StageFaults,
}
use apipact_agent.Update.Swap.Undo.{rollback_undoes_promote, promote_failure_keeps}

parses :
    (parse_semver "v1.2.3" ≡ some (1, 2, 3))
    × (parse_semver "1.10.0" ≡ some (1, 10, 0))
    × (parse_semver "dev" ≡ none)
unfolding parse_semver
parses = (refl, refl, refl)

newer :
    (should_update "1.2.3" "" "1.10.0" ≡ true)
    × (should_update "1.10.0" "" "1.2.3" ≡ false)
    × (should_update "1.10.0" "1.2.3" "1.2.3" ≡ true)
unfolding should_update is_newer parse_semver newer_numbers
newer = (refl, refl, refl)

from_v : should_update "v1.2.3" "" "1.10.0" ≡ true
unfolding should_update is_newer parse_semver newer_numbers
from_v = refl

no_update_cycle_example : All (λ w. parse_semver w ≢ some (1, 2, 3)) ("1.10.0" ∷ [])
no_update_cycle_example =
    no_update_cycle "v1.2.3" (1, 2, 3) ("1.10.0" ∷ []) parses.0 (from_v, ((1, 10, 0), parses.1, tt))

abbrev manifest : Manifest
manifest = record {
  version = "1.10.0";
  channel = "stable";
  os = "linux";
  arch = "amd64";
  worker = record { url = "https://example.com/w"; sha256 = "AB"; size = pos 2 };
  released_at = "";
}

abbrev release : Release
release = record {
  parse_signed = λ raw. ok (record { payload = "p"; signature = "s" });
  parse_manifest = λ raw. ok manifest;
  decode_base64 = λ s. ok [];
  verify = λ key payload sig. true;
  hex_sum = λ body. "ab";
}

abbrev answer : Got
answer = response 200 "200 OK" (7 ∷ 8 ∷ []) none

fetch_manifest-ok_iff_example :
    (fetch_manifest release [] answer ≡ ok manifest) ↔ Vouched release [] answer manifest
fetch_manifest-ok_iff_example = fetch_manifest-ok_iff release [] answer manifest

abbrev no_faults : StageFaults
no_faults = record { create = none; chmod = none; close = none; remove = none }

abbrev chmod_fails : StageFaults
chmod_fails = record no_faults { chmod = some "not permitted" }

abbrev files : Files
files = ("worker", 1 ∷ []) ∷ []

stages : (stage_worker release no_faults manifest answer "tmp" files).0 ≡ ok "tmp"
unfolding stage_worker check_worker equal_fold fold_code
stages = refl

does_not_stage :
    (stage_worker release chmod_fails manifest answer "tmp" files).0 ≡ err "not permitted"
unfolding stage_worker check_worker equal_fold fold_code
does_not_stage = refl

no_tmp : lookup "tmp" files ≡ none
unfolding lookup
no_tmp = refl

abbrev staged_files : Files
staged_files = ("worker", 1 ∷ []) ∷ ("tmp", 7 ∷ []) ∷ []

abbrev all_work : PromoteFaults
all_work = record { save = none; move = none; restore = none }

abbrev move_fails : PromoteFaults
move_fails = record all_work { move = some "busy" }

has_worker : lookup "worker" staged_files ≡ some (1 ∷ [])
unfolding lookup
has_worker = refl

promotes : (promote all_work "tmp" "worker" staged_files).0 ≡ none
unfolding promote lookup insert erase
promotes = refl

does_not_promote : is_some (promote move_fails "tmp" "worker" staged_files).0 ≡ true
unfolding promote lookup insert erase
does_not_promote = refl

apart : ◌≢◌ {A = String} "tmp" "worker"
apart = texts_differ "tmp" "worker" refl

apart_from_previous : "tmp" ≢ previous "worker"
apart_from_previous = texts_differ "tmp" (previous "worker") refl

rollback_undoes_promote_example :
    let after = promote all_work "tmp" "worker" staged_files in
    (lookup "worker" after.1 ≡ lookup "tmp" staged_files)
    × (lookup (previous "worker") after.1 ≡ some (1 ∷ []))
    × ((rollback none "worker" after.1).0 ≡ none)
    × (lookup "worker" (rollback none "worker" after.1).1 ≡ some (1 ∷ []))
rollback_undoes_promote_example =
    rollback_undoes_promote "tmp" "worker" apart apart_from_previous staged_files (1 ∷ [])
      has_worker all_work promotes

promote_failure_keeps_example :
    (lookup "worker" (promote move_fails "tmp" "worker" staged_files).1 ≡ some (1 ∷ []))
    ⊎ (is_some move_fails.restore ≡ true)
promote_failure_keeps_example =
    promote_failure_keeps "tmp" "worker" apart apart_from_previous staged_files (1 ∷ []) has_worker
      move_fails does_not_promote
