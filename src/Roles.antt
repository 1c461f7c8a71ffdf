-- ===== src/Roles.antt =====
-- The roles of the people who use the services (libs/shared/src/auth/roles.ts).
pub data Role : Type 0 where
  owner manager buyer accountant cashier warehouse_staff : Role
