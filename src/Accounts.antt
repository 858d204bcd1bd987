-- ===== src/Accounts.antt =====
-- Users, their organizations and what they may do: apps/api/src/auth, users, notifications and
-- account/plan-usage.
pub mod Roles
pub mod Guards
pub mod Members
pub mod Notifications
pub mod PlanUsage
mod Examples
