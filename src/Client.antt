-- ===== src/Client.antt =====
-- libEGD-master/src/egd/client/egd_client.hpp and egd_client.cpp: publishing and subscribing over
-- UDP. The children hold the state and what the system answers (Types), addresses (Address),
-- sockets (Connect), `Publish` (Publish), the receiving loop (Poll) and `Subscribe` with the
-- destructor (Subscribe).
mod Tests
pub mod Types
pub mod Address
pub mod Connect
pub mod Publish
pub mod Poll
pub mod Subscribe
pub mod Threads
pub mod Configs
pub mod Handles
