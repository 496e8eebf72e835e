-- ===== src/Racer.antt =====
-- ext/racer/racer.cc: the extension that follows the Ruby program through tracepoints.
pub mod State
pub mod Constants
pub mod Generics
pub mod Free
pub mod Paths
pub mod Parameters
pub mod Calls
pub mod Blocks
pub mod Events
pub mod Session
pub mod Ensures
pub mod Closed
pub mod Known
pub mod Found
pub mod Explored
pub mod Types
pub mod PathCache
pub mod StartStates
pub mod Starts
pub mod Filters
pub mod Dispatch
pub mod Returns
pub mod Nesting
pub mod Delivery
pub mod Advanced
pub mod Shapes
pub mod Arguments
pub mod Stacks
pub mod Records
pub mod Pushes
pub mod Outcomes
pub mod Retries
pub mod Tracer
pub mod Models
pub mod Refines
pub mod Sends
pub mod Owned
pub mod Ownership
pub mod Releases
pub mod Stops
