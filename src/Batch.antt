-- ===== src/Batch.antt =====
-- The five classes of batch policies of lib.rs.
pub mod Policy
pub mod Read
pub mod Write
pub mod Delete
pub mod Udf
