-- ===== src/Ws.antt =====
-- ws/: connections over an upgraded transport. ws/doc.go holds a comment only.
pub mod Errors
pub mod Close
pub mod Receiver
pub mod Sender
pub mod Interop
pub mod Closing
pub mod CloseCode
pub mod PreparedHistory
pub mod Queue
pub mod Writer
pub mod Config
pub mod Prepared
pub mod Reader
mod Tests
