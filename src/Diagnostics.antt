-- ===== src/Diagnostics.antt =====
-- Provider diagnostics: frontend/src/lib/diagnostics.ts. `Health` is `evaluateHealth`, `Readiness` has its
-- laws, and `Propagation` decides what a poll of the two providers says of a broadcast.
pub mod Propagation
pub mod Health
pub mod Readiness
pub use Health.{monad_chain_id}
