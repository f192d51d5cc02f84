-- ===== src/Action/Replay.antt =====
-- Idempotency keys: a stored result is returned again, and the handler does not run.
