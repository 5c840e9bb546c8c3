-- ===== src/Store.antt =====
-- Package store: the tables, the statements on them, and the functions that run these.
pub mod Tables
pub mod Exec
pub mod Field
pub mod Contact
pub mod History
pub mod Fault
pub mod Export
pub mod List
pub mod Event
pub mod ApiUser
pub mod Segment
pub mod RequestLog
pub mod Untouched
pub mod Migrate
