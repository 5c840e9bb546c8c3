-- ===== src/Server.antt =====
-- internal/server: the request handlers, each a piece of code that answers `ok` with its payload or
-- `err` with the failure that it writes.
pub mod Download
pub mod Export
pub mod Csv
pub mod Field
pub mod Json
pub mod Common
pub mod Ctl
pub mod ContactValue
pub mod Contact
pub mod Fault
pub mod List
pub mod Event
pub mod Segment
pub mod ContactRead
