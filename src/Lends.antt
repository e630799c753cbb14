-- ===== src/Lends.antt =====
-- internal/db/lends.go: money lent, bills paid for someone, and the payments that settle them. Every
-- statement is restricted to the rows of one user, so the tables hold that user's rows; a statement
-- on one id stops at its row, since id is a primary key. Amounts are NUMERIC(14,2): the model counts
-- them in hundredths, as `roundMoney` leaves them, and an amount below zero, which every operation
-- treats as zero, is zero.
pub mod Tables
pub mod Ledger
pub mod Due
pub mod Rebalance
pub mod Shares
pub mod Bills
pub mod Settle
mod Tests
