-- ===== src/Async.antt =====
-- detail/async_handshake.hpp, detail/async_read.hpp, detail/async_write.hpp and
-- detail/async_shutdown.hpp: the stackless coroutines behind the asynchronous operations. A coroutine
-- is the place at which it resumes, and each call of its operator() ends in one action.
pub mod Read
pub mod ReadLaws
pub mod Write
pub mod Shutdown
pub mod Handshake
pub mod HandshakeLaws
