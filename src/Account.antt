-- ===== src/Account.antt =====
-- account: deposit conditions, and the store that keeps the state of accounts.
pub mod Store
