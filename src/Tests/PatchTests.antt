-- ===== src/Tests/PatchTests.antt =====
-- The theorems on patches at a workflow that asks for two patches, one of them twice.
use temporalio_sdk_python.Common.{Bool, true, false, [], ◌∷◌, List, String, ◌≡◌, refl, ◌≤◌}
use temporalio_sdk_python.Instance.State.{Instance, new_instance}
use temporalio_sdk_python.Instance.Patch.{patch_all, workflow_patch}
use temporalio_sdk_python.Instance.Patch.Replay.{SameRun, patch_all-replay}
use temporalio_sdk_python.Instance.Patch.Memo.{
  PatchEvent, asked, notified, activated, run_events, markers, workflow_patch_final,
  patch_all-markers,
}

abbrev calls : List (String × Bool)
calls = ("a", false) ∷ ("b", false) ∷ ("a", true) ∷ []

abbrev replaying : Instance
replaying = record new_instance { is_replaying = true; patches_notified = "b" ∷ "a" ∷ [] }

patch_all-replay_example : SameRun (patch_all calls replaying) (patch_all calls new_instance)
patch_all-replay_example =
    patch_all-replay calls new_instance replaying
      (record {
        first = (refl, refl);
        second = (refl, refl);
        not_replaying = refl;
        memoized = refl;
        commands = refl;
      })
      (refl, (refl, (refl, tt)))

-- The first call is made in a replay that has not been notified, and later ones after the replay.
abbrev events : List PatchEvent
events =
    asked "a" false
    ∷ activated (record { jobs = []; is_replaying = false })
    ∷ notified "b"
    ∷ asked "b" true
    ∷ []

abbrev unnotified : Instance
unnotified = record new_instance { is_replaying = true }

workflow_patch_final_example :
    let first = workflow_patch "b" false unnotified in
    let later = run_events events first.1 in workflow_patch "b" true later ≡ (first.0, later)
workflow_patch_final_example = workflow_patch_final "b" false true events unnotified (refl, refl)

patch_all-markers_example : markers "a" (patch_all calls new_instance).1.commands ≤ 1
patch_all-markers_example = patch_all-markers "a" calls new_instance (refl, refl) refl
