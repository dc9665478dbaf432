-- ===== src/Converter.antt =====
-- temporalio/converter.py: payloads, failures and the codec.
pub mod Encoding
pub mod Composite
pub mod Failures
pub mod Attributes
pub mod Untyped
pub mod DataConverter
