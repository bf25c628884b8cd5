-- ===== src/Tests.antt =====
-- Sample rows and environments, and the theorems of the other modules at them.
mod Samples
mod Jobs
mod Worker
mod Operations
mod Gateway
mod Access
mod Whole
mod Workers
mod Startup
mod Requests
mod Serving
