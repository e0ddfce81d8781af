-- ===== src/Plugins/Runner/Partial.antt =====
-- What a run that fails after its first writes leaves committed.
