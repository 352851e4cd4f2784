-- ===== src/Notifications.antt =====
-- Frontend/hawkeye-web/src/lib/notifications: the store and the feeder.
pub mod Store
pub mod Feeder
pub mod Bell
