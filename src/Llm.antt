-- ===== src/Llm.antt =====
-- The calls of language models: backend/services/errors.py, backend/services/llm.py and
-- `invoke_structured` of backend/observability/telemetry.py.
pub mod Errors
pub mod Provider
pub mod Fallback
