-- ===== src/Engine.antt =====
-- src/include/machnet_engine.h and src/include/arp.h: the engine, the state that engines share, and the
-- resolution of addresses.
pub mod Ports
pub mod Arp
pub mod Flows
pub mod Protocols
