-- ===== src/Tests/WorkerTests.antt =====
-- common/worker.cpp at a concrete run: two jobs, one of them taken, and the limit lowered to 0.
