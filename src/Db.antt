-- ===== src/Db.antt =====
-- src/db: the metadata store.
pub mod Table
pub mod Audit
pub mod Ordered
pub mod Stats
pub mod Sessions
pub mod Submissions
pub mod Users
pub mod Inbox
