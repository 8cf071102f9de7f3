-- ===== src/Config.antt =====
-- libEGD-master/src/egd/config: the pages and variables that a server describes, fetched over HTTP
-- and read out of XML. The children hold the data (Types), what other libraries do (Libraries),
-- the request (Url, Fetch), the parser (Parse), the queries (Query) and the two readers (Read).
mod Tests
pub mod Types
pub mod Libraries
pub mod Url
pub mod Fetch
pub mod Parse
pub mod Query
pub mod Read
