-- ===== src/Tests/SignalTests.antt =====
-- The theorems on signals at a workflow that gets two signals before it sets their handlers.
use temporalio_sdk_python.Common.{
  false, none, some, List, [], ◌∷◌, ◌++◌, String, ◌≡◌, refl, if◌then◌else◌, ◌==◌, string_eq,
  option_eq, ℕ_eq,
}
use temporalio_sdk_python.Common.Dict.{get, put, remove}
use temporalio_sdk_python.Common.Result.{ok}
use temporalio_sdk_python.Instance.State.{Instance, new_instance}
use temporalio_sdk_python.Instance.Signals.{
  Handler, buffered, signal_definition, workflow_set_signal_handler, apply_signal_workflow,
}
use temporalio_sdk_python.Instance.Signals.Handed.{IsOpen, Decodes, delivered, args_of, items_of}
use temporalio_sdk_python.Instance.Signals.Delivery.{set_handler_delivers, apply_signal-handled}
use temporalio_sdk_python.Instance.Signals.Steps.{SignalOp, arrive, set_handler}
use temporalio_sdk_python.Tests.Samples.{total_converters, signal}

abbrev handler : Handler
handler = record { fn = 1; arg_types = none; dynamic_vararg = false }

abbrev ops : List SignalOp
ops =
    arrive (signal "a")
    ∷ arrive (signal "b")
    ∷ set_handler (some "a") (some handler)
    ∷ set_handler (some "a") none
    ∷ set_handler none (some handler)
    ∷ []

decodes : Decodes total_converters
decodes ps ts = (_, refl)

abbrev waiting : Instance
waiting = record new_instance {
  buffered_signals = ("a", signal "a" ∷ signal "a" ∷ []) ∷ ("b", signal "b" ∷ []) ∷ [];
}

abbrev handling : Instance
handling = record new_instance { signals = (some "a", signal_definition (some "a") handler) ∷ [] }

waiting-IsOpen : IsOpen waiting
unfolding get
waiting-IsOpen = record { writable = (refl, refl); fresh = λ k h. refl }

handling-IsOpen : IsOpen handling
unfolding get
handling-IsOpen = record { writable = (refl, refl); fresh = λ k h. refl }

set_handler_delivers_example :
    (t : Instance) × (workflow_set_signal_handler total_converters (some "a") (some handler) waiting
      ≡ (ok tt, t))
    × (delivered t
        ≡ delivered waiting
          ++ items_of total_converters
              (signal_definition (some "a") handler)
              (buffered waiting "a"))
    × ((other_name : String)
        → buffered t other_name ≡ (if "a" == other_name then [] else buffered waiting other_name))
    × IsOpen t
    × (t.signals ≡ put waiting.signals (some "a") (signal_definition (some "a") handler))
    × (t.buffered_signals ≡ remove waiting.buffered_signals "a")
set_handler_delivers_example =
    set_handler_delivers total_converters "a" handler waiting decodes waiting-IsOpen refl

apply_signal-handled_example :
    (t : Instance) × (apply_signal_workflow total_converters (signal "a") handling ≡ (ok tt, t))
    × (delivered t
        ≡ delivered handling
          ++ ("a", args_of total_converters (signal_definition (some "a") handler) (signal "a"))
            ∷ [])
    × IsOpen t
    × (t.signals ≡ handling.signals)
    × (t.buffered_signals ≡ handling.buffered_signals)
unfolding get
apply_signal-handled_example =
    apply_signal-handled total_converters (signal "a") (signal_definition (some "a") handler)
      handling decodes handling-IsOpen refl
