-- ===== src/Tests.antt =====
-- Runs of the models on small inputs, and each theorem with hypotheses applied at such an input.
mod Locks
mod Buffers
mod PageCacheRuns
mod Reports
mod Queues
mod Stacks
mod Traps
mod Systems
mod Seqlock
mod Crash
