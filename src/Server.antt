-- ===== src/Server.antt =====
-- The server crate (server/src): schedules, access rules, the access engine, roles, throttling.
pub mod Schedules
pub mod Rbac
pub mod Rules
pub mod Access
pub mod Throttle
pub mod Compile
pub mod Membership
pub mod Billing
pub mod Sweep
pub mod CalendarWindow
pub mod Bypass
pub mod Training
pub mod ToolRequests
