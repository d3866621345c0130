-- ===== src/Song/Tests.antt =====
-- Two short voices, and the theorems on them.
