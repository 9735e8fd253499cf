-- ===== src/Tests.antt =====
-- Runs of the program's operations at concrete values, one module for each group of components.
mod Pollers
mod Searches
mod Settings
mod Schedules
mod Buffers
mod Clients
mod Entities
