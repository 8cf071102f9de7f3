-- ===== src/Lib.antt =====
-- AuroraLink speaks Ethernet Global Data (EGD): producers send pages of variables as UDP datagrams,
-- consumers receive them, and an HTTP server describes the pages in XML. This library models the
-- EGD library of the repository (libEGD-master/src/egd), its examples (libEGD-master/src/examples) and
-- the sending program EgdSend.c, and proves what makes them correct.
--
-- The parts and their files:
-- - Status: libEGD-master/src/egd/util/egd_status.h and egd_status.cpp, the statuses of all calls
--   (EgdStatus) and their texts (egd_status_to_string).
-- - Bytes, Spec: util/egd_spec.h. `Bytes` has little-endian words in buffers, and stores and loads
--   that fail outside a buffer. `Spec` has the structs and their memory image, which is what the
--   library sends and receives.
-- - Config: config/egd_config.h, egd_config.hpp, egd_config.cpp, producer_config.cpp and
--   consumer_config.cpp. Types holds the structs, the class's members and the static table of type
--   names; Url and Fetch the HTTP request (MakeBaseUrl, GetRequest); Parse the function ParseXml,
--   with one definition for each of its loops; Query the getters and DumpPageMap; Read the two
--   classes' Read and the virtual call.
-- - Client: client/egd_client.hpp and egd_client.cpp. Types holds the state of a client; Address
--   and Connect GetAddr, PublishConnect and SubscribeConnect; Publish the function Publish; Poll the
--   receiving loop PollSocket; Subscribe the functions Subscribe, SubscribeBlocking and the
--   destructor; Configs the config objects behind the handles of pages; Threads the user's thread
--   and the polling threads step by step, with the lock of an endpoint's callbacks.
-- - Json: client/json_client.hpp and json_client.cpp. Encode is the loop of JsonClient::Publish,
--   Decode that of JsonProxyCallback, Messages the client.
-- - Send: EgdSend.c and EgdTest.h. Clock has the times and the statistics, Message the datagrams,
--   Setup the socket and the address, Loop the function SenderExample, Main the command line,
--   Report what is printed.
-- - Pages: libEGD-master/src/examples/list_available_pages.cpp, the loop that prints pages, and in
--   Program the command line and `main`.
-- - Examples: the other programs beside it. The C++ ones are json_publish.cpp, json_subscribe.cpp,
--   raw_bytes_publish.cpp and raw_bytes_subscribe.cpp, as steps and callbacks, and as whole programs
--   in Mains; Interface has the C ones, which go through the handles of Client/Handles
--   (egd_producer_config_init and its kin).
-- - Prelude has what all of them share, Samples the data of the tests, and each Tests module the
--   tests of its part.
--
-- How they interact: Config fills the pages that Client publishes and receives. Poll takes the
-- config objects as an interface (ConfigService), which Client/Configs fills with the objects of
-- Config. Json builds on Client: it makes payloads that Publish sends and reads those that a
-- callback gets. Send is a program of its own, whose header is read by the structs of Spec
-- (Send/Message/Interop).
--
-- How the code is modelled: an operation is a function from the state before to the state after,
-- its status, and the calls of the operating system that it makes, in order; what the system
-- answers is an argument (Replies, Round, SenderReplies). Numbers are natural numbers with their
-- wrap-around written out; an `int32_t` that is only carried is its bit pattern. A pointer to a
-- callback or to user data is a number, a null pointer is `none`, and `std::map` is an association
-- list with `find`, `insert` and `operator[]` as they act on one, and a loop over it goes by key
-- (Prelude/Order). In Json an access outside the
-- payload is the result `fault`, and an exception that nothing catches is `thrown`. The host is
-- little-endian and the C string in a page's `page_name` is a parameter, since the library does not
-- end the text with a zero byte.
--
-- Threads: a step of the system (Client/Threads, Step) is a `Subscribe` up to its lock, its rest
-- under the write lock, a `Publish`, or a polling thread's read of the socket, taking of the read
-- lock, visit of one callback, or release of the lock. Any steps may come between two steps of a
-- thread; the write lock waits for the endpoint's walk to end. The walk that is under way and the
-- walks that have ended are kept with what they found and the calls that they made. One thread of
-- the user calls the client, since its maps have no lock, and a callback does not call it back.
-- Client/Threads/Closing adds the destructor: the run flag, the threads that leave their loops, the
-- joins and the closed sockets, and before them the end of a derived class's members.
--
-- Bounds: the receiving loop, the send loop and the listing run over lists of what the system
-- answers, of any length, so that no fuel limits them; a send loop that has not ended where its
-- list ends is told apart from one that has. Decimal printing has the number as its fuel, which is
-- enough since a number has fewer digits than it counts (Config/Url/Decimal).
--
-- Parameters: pugixml, libcurl and CxxUrl (Config/Libraries), nlohmann::json (Json/Library), name
-- resolution (Resolver), the arithmetic on doubles in EgdSend.c (DoubleArith), and what the machine
-- leaves of an `int` that overflows, which C++ does not say (Replies).
--
-- Not modelled: the vendored copies of those libraries, and the Windows branches of EgdSend.c and
-- EgdTest.h, which the preprocessor removes.
pub mod Prelude
pub mod Status
pub mod Bytes
pub mod Spec
pub mod Config
pub mod Client
pub mod Json
pub mod Send
pub mod Pages
pub mod Examples
pub mod Samples
