-- ===== src/Dcc.antt =====
-- DCC.h and DCC.cpp: the calls of the DCC interface, and the packets that they queue.
pub mod Packets
pub mod Receiver
pub mod Roundtrip
pub mod Speed
pub mod Momentum
pub mod Reminder
pub mod Commands
pub mod Clock
mod Tests
