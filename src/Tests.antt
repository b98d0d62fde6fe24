-- ===== src/Tests.antt =====
-- Runs on the inputs of the unit tests, and the properties at concrete inputs.
mod Workers
mod Services
mod Processes
mod Uploads
mod Exports
mod Sharing
mod Media
mod Configs
mod Budgets
mod Tasks
mod Catalogs
mod Sources
