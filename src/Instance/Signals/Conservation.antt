-- ===== src/Instance/Signals/Conservation.antt =====
-- Every signal is handed over or waits, once and in its turn, and none waits while a handler for it is registered.
use temporalio_sdk_python.Common.{List, string_eq, ℕ_eq, option_eq}
use temporalio_sdk_python.Instance.State.{Instance}
use temporalio_sdk_python.Instance.Signals.Steps.{Steps}
