-- ===== src/Worker.antt =====
-- ext/racer/worker.cc: the thread that turns each trace of the queue into one JSON array and sends it
-- to the agent.
pub mod Writer
pub mod Sizes
pub mod Loop
pub mod Sending
