-- ===== src/Errors/Tests.antt =====
-- Errors of src/error.rs at concrete inputs.
