-- ===== src/Tests/JobTests.antt =====
-- The split of an activation's jobs, at an activation with one job of each kind and two signals.
use temporalio_sdk_python.Common.{List, [], ◌∷◌, ◌≡◌, length, ◌+◌}
use temporalio_sdk_python.Instance.Jobs.{
  Job, job_sets, notify_has_patch, signal_workflow, query_workflow, fire_timer,
}
use temporalio_sdk_python.Instance.Jobs.Sets.{jobs_in, job_sets-stable}
use temporalio_sdk_python.Tests.Samples.{signal, empty_payload}

abbrev jobs : List Job
jobs =
    fire_timer 1
    ∷ signal_workflow (signal "a")
    ∷ query_workflow
        (record { query_id = "q"; query_type = "status"; arguments = empty_payload ∷ [] })
    ∷ notify_has_patch "p"
    ∷ signal_workflow (signal "b")
    ∷ []

job_sets-stable_example :
    let t = job_sets jobs in
    (t.patches ≡ jobs_in 0 jobs)
    × (t.signals_and_updates ≡ jobs_in 1 jobs)
    × (t.others ≡ jobs_in 2 jobs)
    × (t.queries ≡ jobs_in 3 jobs)
    × (length t.patches + length t.signals_and_updates + length t.others + length t.queries
        ≡ length jobs)
job_sets-stable_example = job_sets-stable jobs
