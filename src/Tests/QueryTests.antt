-- ===== src/Tests/QueryTests.antt =====
-- The theorem on queries at one for which there is a handler.
use temporalio_sdk_python.Common.{false, none, some, [], ◌∷◌, ◌++◌, ◌≡◌, refl, string_eq, option_eq}
use temporalio_sdk_python.Common.Result.{Result, ok}
use temporalio_sdk_python.Payload.{Payload}
use temporalio_sdk_python.Exceptions.{Failure}
use temporalio_sdk_python.Common.Dict.{get}
use temporalio_sdk_python.Instance.State.{
  Instance, QueryWorkflow, HandlerDefn, warn_and_abandon, respond_to_query, new_instance,
}
use temporalio_sdk_python.Instance.Handlers.{process_handler_args, convert_payloads}
use temporalio_sdk_python.Instance.Queries.{run_query, answer_query}
use temporalio_sdk_python.Instance.Queries.Answer.{Answers, run_query_once}
use temporalio_sdk_python.Tests.Samples.{total_converters, empty_payload, quiet_code}

abbrev job : QueryWorkflow
job = record { query_id = "q1"; query_type = "status"; arguments = empty_payload ∷ [] }

abbrev handler : HandlerDefn
handler = record {
  name = some "status";
  fn = 1;
  arg_types = none;
  dynamic_vararg = false;
  unfinished_policy = warn_and_abandon;
  validator = none;
}

abbrev queried : Instance
queried = record new_instance { queries = (some "status", handler) ∷ [] }

answers : Answers total_converters quiet_code
answers = record { reads = λ n args s r. refl; to_failure = λ e. (_, refl) }

run_query_once_example :
    (r : Result Failure Payload) × (run_query total_converters quiet_code job queried
      ≡ (ok tt, record queried { commands = queried.commands ++ respond_to_query "q1" r ∷ [] }))
unfolding get process_handler_args convert_payloads answer_query
run_query_once_example =
    run_query_once total_converters quiet_code job queried answers tt (refl, refl)
