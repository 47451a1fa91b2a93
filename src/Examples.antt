-- ===== src/Examples.antt =====
-- The theorems at concrete inputs, and runs of the code.
mod Zones
mod Calls
mod Analyses
mod Reports
mod Conflicts
mod Channels
mod Accounts
mod Merges
mod Injections
mod Monitors
mod Patches
