-- ===== src/Tests.antt =====
-- The theorems at concrete inputs.
mod Data
mod Stores
mod Queues
mod Shared
mod Ageing
mod Services
mod Tools
mod Toys
mod Systems
mod Outer
mod Brokers
