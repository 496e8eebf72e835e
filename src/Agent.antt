-- ===== src/Agent.antt =====
-- lib/racer/agent.rb and lib/racer/trace.rb: the process that receives the messages.
pub mod Trace
pub mod Shift
pub mod Stream
pub mod Feed
pub mod Framing
pub mod Reading
