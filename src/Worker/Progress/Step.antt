-- ===== src/Worker/Progress/Step.antt =====
-- Every step of the worker brings the row of its run to an outcome.
