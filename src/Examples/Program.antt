-- ===== src/Examples/Program.antt =====
-- The theorem on the server program, applied.
