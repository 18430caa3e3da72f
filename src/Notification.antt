-- ===== src/Notification.antt =====
-- services/notification: one message for each event.
pub mod Service
