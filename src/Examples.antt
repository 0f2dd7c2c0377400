-- ===== src/Examples.antt =====
-- A small cluster, and the theorems at concrete inputs.
mod Cluster
mod Records
mod Orchestration
mod Drains
mod Leases
mod Windows
mod Requests
mod Schedules
mod Settings
mod Updates
mod Partitions
