-- ===== src/Udp.antt =====
-- src/include/flow.h and src/include/cc.h: the reliable flows of Machnet's own protocol over UDP.
pub mod Pcb
pub mod RxTracking
pub mod TxTracking
pub mod Flow
pub mod Receive
pub mod Batches
pub mod Transmit
pub mod Timer
pub mod Window
mod Tests
