-- ===== src/Tests/ResolveTests.antt =====
-- The theorem on activities at one that completes twice.
use temporalio_sdk_python.Common.{true, false, none, [], ◌∷◌, ◌≡◌, ℕ_eq}
use temporalio_sdk_python.Common.Dict.{get}
use temporalio_sdk_python.Common.Result.{err}
use temporalio_sdk_python.Instance.State.{Instance, Future, new_instance}
use temporalio_sdk_python.Instance.Tasks.{runtime_error}
use temporalio_sdk_python.Instance.Resolve.{Resolution, apply_resolve_activity}
use temporalio_sdk_python.Instance.Resolve.Once.{resolve_activity_once}
use temporalio_sdk_python.Tests.Samples.{total_converters, bare_failure}

abbrev running : Instance
running = record new_instance {
  futures = (0, Future.pending) ∷ [];
  next_future = 1;
  activities =
      (
        3,
        record {
          seq = 1;
          local = false;
          activity = "greet";
          activity_id = none;
          ret_type = none;
          result_fut = 0;
          started = true;
        },
      )
      ∷ [];
  pending_activities = (1, 3) ∷ [];
}

resolve_activity_once_example :
    let t = (apply_resolve_activity total_converters 1 (Resolution.completed none) running).1 in
    (get t.pending_activities 1 ≡ none)
    × ((apply_resolve_activity total_converters 1 (Resolution.failed bare_failure) t).0
        ≡ err (runtime_error "Failed finding activity handle for sequence"))
resolve_activity_once_example =
    resolve_activity_once total_converters 1 (Resolution.completed none)
      (Resolution.failed bare_failure) running
