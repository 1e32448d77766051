-- ===== src/Live.antt =====
-- Live data: the reconnecting WebSocket hook and the metrics hook over it; and the voice commands.
pub mod Socket
pub mod Metrics
pub mod Voice
