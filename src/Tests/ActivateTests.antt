-- ===== src/Tests/ActivateTests.antt =====
-- The theorems on activations at an eviction that leaves a task, and at a job that the instance cannot apply.
use temporalio_sdk_python.Common.{
  true, false, none, some, [], ◌∷◌, ◌++◌, ◌≡◌, refl, ℕ, ◌≤◌, if◌then◌else◌, ℕ_eq, option_eq,
  string_eq,
}
use temporalio_sdk_python.Common.Result.{Result, ok, err}
use temporalio_sdk_python.Exceptions.{Exc, Cause}
use temporalio_sdk_python.Instance.State.{Instance, Work, fail_workflow, new_instance}
use temporalio_sdk_python.Instance.Tasks.{runtime_error}
use temporalio_sdk_python.Instance.Outcome.{is_workflow_failure_exception}
use temporalio_sdk_python.Instance.Jobs.{
  remove_from_cache, unrecognized, job_sets, apply, apply_remove_from_cache,
}
use temporalio_sdk_python.Instance.EventLoop.{run_once, rounds}
use temporalio_sdk_python.Instance.Activate.{
  Activation, Completion, Details, successful, failed, warnable, apply_jobs, run_sets, reset,
  activate, finish,
}
use temporalio_sdk_python.Instance.Activate.Ending.{eviction_result, activate-deleting}
use temporalio_sdk_python.Instance.Activate.Errors.{activate-error}
use temporalio_sdk_python.Instance.Activate.Returns.{activate-returns}
use temporalio_sdk_python.Tests.Samples.{total_converters, bare_failure}
use temporalio_sdk_python.Tests.EventLoopTests.{idle, count_ready, idle-Bounded}

abbrev details : Details
details = record {
  converters = total_converters;
  failure_types = record { definition = []; worker = [] };
  defn = record { name = some "Sample"; arg_types = none };
  cancel = λ task s. (ok tt, s);
  code = idle;
}

abbrev evict : Activation
evict = record { jobs = remove_from_cache ∷ []; is_replaying = false }

abbrev unknown_job : Activation
unknown_job = record { jobs = unrecognized ∷ []; is_replaying = false }

abbrev evicted : Instance
evicted = record new_instance {
  is_replaying = true;
  deleting = true;
  cancel_requested = true;
  has_object = true;
}

evict-returns : activate 1 details evict new_instance ≡ some (ok (successful [] [] []), evicted)
unfolding activate run_sets job_sets apply_jobs apply apply_remove_from_cache run_once rounds finish
evict-returns = refl

abbrev job_error : Exc
job_error =
    Exc.other ("RuntimeError" ∷ "Exception" ∷ "BaseException" ∷ []) "Unrecognized job" ""
      Cause.no_cause Cause.no_cause

-- An eviction with a task that does not end, and then a job that is unknown.
abbrev evict_busy : Activation
evict_busy = record { jobs = remove_from_cache ∷ unrecognized ∷ []; is_replaying = false }

abbrev busy : Instance
busy = record new_instance { tasks = (0, Work.run_workflow []) ∷ []; next_task = 1 }

abbrev evicted_busy : Instance
evicted_busy = record busy { is_replaying = true; deleting = true; cancel_requested = true }

evict_busy-raises :
    run_sets 1 details (job_sets evict_busy.jobs) (reset evict_busy busy)
    ≡ some (err job_error, evicted_busy)
unfolding run_sets job_sets apply_jobs apply apply_remove_from_cache
evict_busy-raises = refl

activate-deleting_example :
    activate 1 details evict_busy busy
    ≡ some (eviction_result details.failure_types (err job_error) evicted_busy, evicted_busy)
activate-deleting_example =
    activate-deleting 1 details evict_busy busy evicted_busy (err job_error) evict_busy-raises refl

evict_busy_fails :
    eviction_result details.failure_types (err job_error) evicted_busy
    ≡ err (runtime_error "Eviction processed, but tasks remain")
unfolding is_workflow_failure_exception
evict_busy_fails = refl

abbrev stopped : Instance
stopped = new_instance

unknown_job-raises :
    run_sets 1 details (job_sets unknown_job.jobs) (reset unknown_job new_instance)
    ≡ some (err job_error, stopped)
unfolding run_sets job_sets apply_jobs apply
unknown_job-raises = refl

activate-error_example :
    (q : Instance) × (activate 1 details unknown_job new_instance
      ≡ some (
        ok (
            if is_workflow_failure_exception details.failure_types job_error
            then successful
                (stopped.commands ++ fail_workflow (some bare_failure) ∷ [])
                (warnable stopped.in_progress_updates)
                (warnable stopped.in_progress_signals)
            else failed bare_failure),
        q,
      ))
activate-error_example =
    activate-error 1 details unknown_job new_instance stopped job_error bare_failure
      unknown_job-raises refl refl (refl, refl)

activate-returns_example :
    (fuel : ℕ) × (r : Result Exc Completion × Instance) × ((k : ℕ)
      → fuel ≤ k
      → activate k details evict new_instance ≡ some r)
activate-returns_example = activate-returns details count_ready evict new_instance idle-Bounded
