-- ===== src/Control.antt =====
-- The control channel of src/control: the WebSocket server and the command dispatcher.
pub mod Dispatcher
pub mod WsServer
pub mod Messages
pub mod Tests
