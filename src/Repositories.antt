-- ===== src/Repositories.antt =====
-- app/repositories: the queries and writes of each table. A query reads the database and may find
-- several rows where one is wanted; a write is checked against the constraints at the flush.
pub mod Users
pub mod Organizations
pub mod Memberships
pub mod Invitations
pub mod Subscriptions
pub mod AuditLogs
