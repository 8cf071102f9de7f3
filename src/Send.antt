-- ===== src/Send.antt =====
-- EgdSend.c and EgdTest.h: the sending program. The children hold its structs and what it asks of
-- the system (Types), time and its statistics (Clock), the message (Message), the socket and the
-- address (Setup), the send loop (Loop), the command line (Main), and what is printed (Report).
mod Tests
pub mod Types
pub mod Clock
pub mod Message
pub mod Setup
pub mod Loop
pub mod Main
pub mod Report
