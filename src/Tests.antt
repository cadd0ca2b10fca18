-- ===== src/Tests.antt =====
-- Concrete inputs: the accounts, blocks and ledgers on which the theorems of the library are run.
pub mod Fixtures
pub mod Transfers
pub mod Arithmetic
pub mod Leases
mod Undo
mod Signatures
mod Cancels
pub mod Admission
mod Tally
mod Clock
mod Wire
mod Cascades
mod Amounts
