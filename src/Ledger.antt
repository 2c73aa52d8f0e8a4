-- ===== src/Ledger.antt =====
-- packages/engine/src/ledger.ts: the double-entry posting engine over the store of
-- apps/server/src/persistence/finance-store.ts. The SHA-256 digest of a request is a parameter.
pub mod Types
mod Tables
mod Channels
pub mod Balances
mod Posting
pub mod Deltas
pub mod Saving
pub mod Inversion
pub mod Laws
pub mod Owners
pub mod Authority
pub mod Rows
pub mod Reported
pub mod Reconcile
unfoldable pub use Types.*
unfoldable pub use Tables.*
unfoldable pub use Channels.*
unfoldable pub use Posting.*
