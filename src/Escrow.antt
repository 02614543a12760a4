-- ===== src/Escrow.antt =====
-- The escrow contract: contracts/contracts/SharedDepositEscrow.sol. Each child models one part of the
-- contract on the storage of one agreement.
pub mod Types
pub mod Storage
pub mod Checked
pub mod Funding
pub mod Creation
pub mod Settlement
pub mod Claims
pub mod Finalization
pub mod Sums
pub mod Solvency
pub mod Closing
pub mod Votes
