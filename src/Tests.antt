-- ===== src/Tests.antt =====
-- The theorems at work on small examples.
mod Publishing
mod Redis
mod Queueing
mod Dispatching
mod Resilient
mod Accessing
mod Joining
mod Limiting
mod Sticking
