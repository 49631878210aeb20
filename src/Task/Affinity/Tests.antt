-- ===== src/Task/Affinity/Tests.antt =====
-- A task that is kept off CPU 65.
