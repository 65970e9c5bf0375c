-- ===== src/Bank.antt =====
-- The bank as a whole: what requests of src/transfer/transfer.service.ts and src/accounts/accounts.service.ts,
-- one after another, may do.
pub mod View
pub mod Tenant
pub mod Transfers
pub mod Holds
pub mod Requests
pub mod Http
pub mod System
