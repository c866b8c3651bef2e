-- ===== src/Tests.antt =====
-- Runs at concrete inputs, and each theorem that has hypotheses at an input that meets them.
mod Memory
mod Slots
mod RegistryRuns
mod LoadRuns
mod StoreRuns
mod RefineRuns
mod ReplicaRuns
mod BaseRuns
mod QueueRuns
mod LogRuns
mod WatchRuns
mod SessionRuns
mod ServerRuns
mod ProcRuns
mod RpcRuns
mod ClientRuns
