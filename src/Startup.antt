-- ===== src/Startup.antt =====
-- The start of the program: main.go, cmd, customize_metrics and util/logger.
pub mod Process
pub mod Logger
pub mod Initial
pub mod Commands
pub mod Order
pub mod Unread
pub mod Redefined
pub mod Registration
