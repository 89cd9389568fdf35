-- ===== src/Bookkeeping.antt =====
-- rc/control/bookkeeping.py
pub mod Errors
pub mod Graph
pub mod Memo
pub mod Readers
pub mod Tables
mod Tests
