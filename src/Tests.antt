-- ===== src/Tests.antt =====
-- Each theorem of the development with hypotheses, applied at a concrete input.
mod SandboxTests
mod PatchTests
mod Samples
mod TimerTests
mod SignalTests
mod OutcomeTests
mod ResolveTests
mod UpdateTests
mod QueryTests
mod JobTests
mod RetryPolicyTests
mod ConverterTests
mod FailureTests
mod EventLoopTests
mod ActivateTests
mod AttributeTests
mod DataConverterTests
