-- ===== src/Database.antt =====
-- The database as the services use it: the enumerations of src/common/enums.ts, and transactions as
-- `withActor` of src/prisma.service.ts opens them.
pub mod Enums
pub mod Transaction
