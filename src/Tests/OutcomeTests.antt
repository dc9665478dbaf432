-- ===== src/Tests/OutcomeTests.antt =====
-- The theorems on the end of the workflow at one that returns, one that fails and one that continues as new.
use temporalio_sdk_python.Common.{true, some, [], ◌∷◌, ◌++◌, ◌≡◌, refl, ◌+◌, if◌then◌else◌}
use temporalio_sdk_python.Common.Result.{ok, err}
use temporalio_sdk_python.Payload.{Value, null}
use temporalio_sdk_python.Exceptions.{Failure, asyncio_cancelled, continue_as_new}
use temporalio_sdk_python.Instance.State.{
  Instance, Action, cancel_workflow, fail_workflow, new_instance,
}
use temporalio_sdk_python.Instance.Guards.{IsWritable}
use temporalio_sdk_python.Instance.Outcome.{FailureTypes, end_by, run_top_level, run_workflow}
use temporalio_sdk_python.Instance.Outcome.Ends.{
  Converts, OnePayload, endings, end_by-once, end_by-asyncio_cancelled, run_workflow-unconverted,
  run_workflow-once,
}
use temporalio_sdk_python.Tests.Samples.{total_converters, failing_converters, sample_error}

abbrev no_types : FailureTypes
no_types = record { definition = []; worker = [] }

converts : Converts total_converters
converts = record { failures = λ e. (_, refl); payloads = λ vs. (_, refl) }

one_payload : OnePayload total_converters
one_payload v = (_, refl)

abbrev returning : Action Value
returning s = (ok null, s)

abbrev cancelling : Instance
cancelling = record new_instance { cancel_requested = true }

run_workflow-once_example :
    let p =
      run_top_level total_converters no_types
        (run_workflow total_converters returning)
        new_instance in
    (p.0 ≡ ok tt) × (endings p.1 ≡ endings new_instance + 1)
run_workflow-once_example =
    run_workflow-once total_converters no_types returning new_instance converts one_payload tt
      (refl, refl) refl

end_by-once_example :
    (IsWritable new_instance
      → ((end_by total_converters no_types sample_error new_instance).0 ≡ ok tt)
        × (endings (end_by total_converters no_types sample_error new_instance).1
            ≡ endings new_instance + 1))
    × (new_instance.deleting ≡ true
        → (end_by total_converters no_types sample_error new_instance).1 ≡ new_instance)
end_by-once_example =
    end_by-once total_converters no_types sample_error new_instance converts refl refl

end_by-asyncio_cancelled_example :
    let u = (end_by total_converters no_types (asyncio_cancelled "stop") cancelling).1 in
    (u.activation_error ≡ cancelling.activation_error)
    × ((f : Failure) × (u.commands
          ≡ cancelling.commands
            ++ (if cancelling.cancel_requested then cancel_workflow else fail_workflow (some f))
              ∷ []))
end_by-asyncio_cancelled_example =
    end_by-asyncio_cancelled total_converters no_types "stop" cancelling converts (refl, refl)

abbrev continuing : Action Value
continuing s = (err (continue_as_new (null ∷ [])), s)

run_workflow-unconverted_example :
    let p =
      run_top_level failing_converters no_types
        (run_workflow failing_converters continuing)
        new_instance in
    (p.0 ≡ err sample_error) × (endings p.1 ≡ endings new_instance)
run_workflow-unconverted_example =
    run_workflow-unconverted failing_converters no_types continuing null [] sample_error
      new_instance refl refl
