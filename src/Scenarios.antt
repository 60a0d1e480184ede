-- ===== src/Scenarios.antt =====
-- Concrete runs of the modelled code.
mod Basics
mod Closing
mod Posted
mod Cancelled
mod Scopes
mod Polled
mod Signalled
mod Watched
mod Streamed
mod Slept
mod Accepted
mod Spawned
mod Filed
mod Requested
mod Connected
mod Received
mod Datagrams
mod Handled
mod Batched
mod Processes
mod Worked
mod Piped
mod Systems
mod Moved
