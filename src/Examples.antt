-- ===== src/Examples.antt =====
-- The theorems at concrete inputs: a write of the client, its recovery, the pages, and the contract.
mod Escrow
mod Votes
mod Writes
mod Session
mod Views
mod Pages
mod Contract
