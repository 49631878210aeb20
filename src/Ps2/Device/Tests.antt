-- ===== src/Ps2/Device/Tests.antt =====
-- Device types at concrete bytes.
