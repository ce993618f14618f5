-- ===== src/Tests/ParallelTests.antt =====
-- common/parallel.hpp at a concrete run: two continuations, one has failed.
