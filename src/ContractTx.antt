-- ===== src/ContractTx.antt =====
-- One contract write from the browser: frontend/src/hooks/useContractTx.ts. What the providers, the
-- wallet and the contract answer is an argument; the loops take fuel.
pub mod Provider
pub mod Propagation
pub mod Polling
pub mod Effects
pub mod Messages
pub mod Send
