-- ===== src/Json.antt =====
-- libEGD-master/src/egd/client/json_client.hpp and json_client.cpp: publishing JSON objects as
-- pages and reading pages as JSON objects. The children hold what the JSON library does (Library),
-- the two loops over variables (Encode, Decode) and the client (Messages).
mod Tests
pub mod Library
pub mod Encode
pub mod Decode
pub mod Messages
pub mod Layout
pub mod RoundTrip
