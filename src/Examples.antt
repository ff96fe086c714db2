-- ===== src/Examples.antt =====
-- Runs of the model on small inputs, and the theorems at concrete inputs.
mod Samples
mod Treaps
mod Batches
mod Backends
mod BatchClients
mod Scheduler
mod Workloads
mod Options
mod Contreaps
mod Clients
mod Hashes
mod Latencies
mod Releases
mod Setups
mod Programs
mod Logs
