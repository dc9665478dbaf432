-- ===== src/Tests/UpdateTests.antt =====
-- The theorems on updates at one with a validator, and at two dynamic handlers, one of which is refused.
use temporalio_sdk_python.Common.{
  true, false, none, some, List, [], ◌∷◌, ◌++◌, ◌≡◌, refl, is_some, string_eq, option_eq,
}
use temporalio_sdk_python.Common.Dict.{get}
use temporalio_sdk_python.Common.Result.{ok, err}
use temporalio_sdk_python.Instance.State.{
  Instance, DoUpdate, UpdateResponse, HandlerDefn, warn_and_abandon, new_instance,
}
use temporalio_sdk_python.Instance.Signals.{Handler}
use temporalio_sdk_python.Instance.Outcome.{FailureTypes}
use temporalio_sdk_python.Instance.Updates.{
  run_update, vararg_error, new_update_definition, workflow_set_update_handler,
}
use temporalio_sdk_python.Instance.Updates.Responses.{
  responses, is_answer, CaughtConverters, Behaves,
}
use temporalio_sdk_python.Instance.Updates.Protocol.{run_update-answer}
use temporalio_sdk_python.Instance.Updates.Registration.{Registers, set_update_handler-Registers}
use temporalio_sdk_python.Tests.Samples.{total_converters, empty_payload, quiet_code}

abbrev vararg : Handler
vararg = record { fn = 4; arg_types = none; dynamic_vararg = true }

abbrev dynamic : Handler
dynamic = record {
  fn = 5;
  arg_types = some ("str" ∷ "typing.Sequence[temporalio.common.RawValue]" ∷ []);
  dynamic_vararg = false;
}

abbrev job : DoUpdate
job = record {
  id = "u1";
  protocol_instance_id = "p1";
  name = "rename";
  input = empty_payload ∷ [];
  run_validator = true;
}

abbrev handler : HandlerDefn
handler = record {
  name = some "rename";
  fn = 1;
  arg_types = none;
  dynamic_vararg = false;
  unfinished_policy = warn_and_abandon;
  validator = some 2;
}

abbrev updating : Instance
updating = record new_instance { updates = (some "rename", handler) ∷ [] }

abbrev no_types : FailureTypes
no_types = record { definition = []; worker = [] }

caught : CaughtConverters total_converters
caught = record { to_failure = λ e. (_, refl); from_payloads = λ ps ts. tt; to_payloads = λ vs. tt }

behaves : Behaves quiet_code "p1"
behaves = record {
  validator = λ n args s. (tt, refl);
  handler = λ n args s w e. (tt, record { writable = w; no_error = e; silent = refl });
}

run_update-answer_example :
    let p = run_update total_converters no_types quiet_code job updating in
    (p.0 ≡ ok tt)
    × (get p.1.in_progress_updates "u1" ≡ none)
    × ((rs : List UpdateResponse) × (responses "p1" p.1.commands
          ≡ responses "p1" updating.commands ++ rs)
        × (is_answer rs (is_some p.1.activation_error) ≡ true))
run_update-answer_example =
    run_update-answer total_converters no_types quiet_code job updating caught behaves (refl, refl)
      refl

set_update_handler-Registers_example :
    Registers none new_instance
      (new_update_definition none dynamic none)
      (workflow_set_update_handler none (some dynamic) none new_instance)
set_update_handler-Registers_example =
    set_update_handler-Registers none dynamic none new_instance (refl, refl)

refuses_vararg :
    workflow_set_update_handler none (some vararg) none new_instance
    ≡ (err vararg_error, new_instance)
unfolding workflow_set_update_handler
refuses_vararg = refl
