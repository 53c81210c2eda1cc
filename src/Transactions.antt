-- ===== src/Transactions.antt =====
-- internal/praefect/transactions: reference transactions and their votes.
pub mod Types
pub mod Subtransaction
pub mod Transaction
pub mod Manager
