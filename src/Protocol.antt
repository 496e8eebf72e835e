-- ===== src/Protocol.antt =====
-- The messages between ext/racer/worker.cc and lib/racer/agent.rb: one array of scalars, in the order
-- in which the one writes and the other shifts.
pub mod Tokens
pub mod Reading
pub mod Reads
pub mod Views
pub mod Writes
pub mod Sizes
pub mod Capacity
pub mod RoundTrip
pub mod Queued
pub mod Sending
pub mod Connection
pub mod Tidy
pub mod TidySteps
pub mod TidyReturns
pub mod TidyEvents
pub mod AllStacks
pub mod TidyEnd
pub mod Session
