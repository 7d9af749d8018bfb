-- ===== src/Tests.antt =====
-- The theorems at concrete values: one cluster "db" with its nodes.
mod Data
mod Clusters
mod Nodes
mod Api
mod Tasks
mod K8s
mod Storages
mod Agents
mod Plane
mod Races
mod Ticks
mod Activations
mod Ticked
mod Recoveries
mod Paths
mod Routes
