-- ===== src/Rbac.antt =====
-- Roles, permissions and individual grants (app/rbac), with the audit trail that they write
-- (app/audit). The state is `Db`: one list for each table, in order of insertion.
pub mod Tables
pub mod Resolution
pub mod Roles
pub mod Grants
mod Tests
