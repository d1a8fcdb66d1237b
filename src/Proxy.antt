-- ===== src/Proxy.antt =====
-- pthreads/laboratory_work_#29/src: the caching HTTP proxy with one thread; Data.h and Data.cpp, the
-- pieces of a resource, Client.cpp and Client.h, the two connections of a client, and
-- PicoHttpRequest.cpp, PicoHttpResponse.cpp and PicoHttpParser.cpp, what they read out of a parsed
-- header. picohttpparser and the socket calls are parameters: what they answer.
pub mod Text
pub mod Request
pub mod Pieces
pub mod Client
pub mod Asking
pub mod Download
pub mod Delivery
pub mod Unkept
pub mod Resource
mod Tests
