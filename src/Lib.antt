-- ===== src/Lib.antt =====
-- A model of wintls, a TLS stream for Boost.Asio on top of Windows' Schannel package, and proofs
-- about it. Paths are those of the repository; the headers lie in include/boost/wintls/, here
-- called wintls/.
--
-- How the program is put together. A `stream` (wintls/stream.hpp) owns a next layer, usually a
-- socket, and an `sspi_stream` with two handles of the security package and four state machines
-- that share them: the handshake, encryption, decryption and the closing token. The machines do no
-- I/O. They say what they need next, and the stream reads or writes for them: in a loop in the
-- blocking operations, in a stackless coroutine in the asynchronous ones. A `context` holds the
-- certificates that the handshake asks for.
--
-- Which file models what:
-- + Common, and Common/Tests, Common/Lists, Common/Memory: Boolean tests, lists over the native
--   numbers, and arrays with `slice`, `store` and `memmove`.
-- + Windows: constants of the Windows SDK, pointers, 32-bit sums, and assertions.
-- + ErrorCode: wintls/error.hpp, wintls/detail/error.hpp. An exception is a value of `Outcome`.
-- + Asio, NextLayer: the functions of Boost.Asio and of the stream below, as interfaces with the
--   laws that their documentation states, and a reference implementation of the first.
-- + Schannel: wintls/detail/sspi_functions.hpp as an interface, with what is passed to each
--   function and what is read back; wintls/detail/sspi_sec_handle.hpp.
-- + Buffers, ContextBuffer: wintls/detail/sspi_buffer_sequence.hpp and the buffer classes;
--   wintls/detail/sspi_context_buffer.hpp with its moves and its destructor.
-- + Flags: wintls/method.hpp, wintls/detail/context_flags.hpp.
-- + DecryptedData, Decrypt: wintls/detail/decrypted_data_buffer.hpp and
--   wintls/detail/sspi_decrypt.hpp. `decrypt` is `sspi_decrypt::operator()`, `size_read` its
--   namesake. Decrypt/Deliver, Decrypt/Validity, Decrypt/Records and Decrypt/Waiting hold the
--   proofs.
-- + Encrypt: wintls/detail/encrypt_buffers.hpp as `prepare`, wintls/detail/sspi_encrypt.hpp as
--   `encrypt`.
-- + Handshake: wintls/detail/sspi_handshake.hpp. `start` is `operator()(handshake_type)`, `step` is
--   `operator()()`, in three parts: `call_package`, `digest` and `conclude`.
-- + Shutdown: wintls/detail/sspi_shutdown.hpp.
-- + Context: wintls/context.hpp, wintls/detail/context_certificates.hpp.
-- + Stream: wintls/stream.hpp, wintls/detail/sspi_stream.hpp, the blocking operations.
--   Stream/Plaintext holds the abstract view of what is still to be read. Stream/Peers puts the
--   writes of one side and the reads of another behind one another; Stream/Keeping is about what a
--   read leaves alone. Stream/Succeeding has the iterations of the handshake as a relation.
-- + Async/Handshake, Async/Read, Async/Write, Async/Shutdown: the coroutines in
--   wintls/detail/async_*.hpp. `resume` is one call of `operator()`, from the point where the
--   coroutine stands to its next action; `run` is the event loop, which performs the action and
--   calls it again.
-- + Connection: the stream as one object over a platform of package, next layer and certificate
--   functions: `construct`, `destruct`, and the operations of wintls/stream.hpp in both forms, each
--   with the completion that its caller or handler gets. Connection/Holdings counts what the
--   package holds; Connection/Duplex follows reads and writes of one stream beside each other.
-- + Certificate, Certificate/Crypto: wintls/certificate.hpp, wintls/file_format.hpp,
--   wintls/detail/win32_crypto.hpp.
-- + Examples/EchoServer, Examples/EchoServer/Server: examples/echo_server.cpp. A session waits for
--   one operation at a time, its `phase`; `complete` runs that operation and the handler behind it.
--   `set_up`, `tear_down` and `serve` are the constructor, the destructor and the guarded block of
--   `main`. Examples/EchoServer/Returning joins a session and the streams of its client.
-- + Examples/EchoClient: examples/echo_client.cpp, likewise; `trust` makes the context of `main`.
-- + Examples/Url, Examples/HttpsClient, Examples/AsyncHttpsClient: examples/https_client.cpp and
--   examples/async_https_client.cpp. `regex_match` is the regular expression of both.
-- + TlsRecord: test/tls_record.hpp, test/tls_record.cpp, the parser that the tests use.
-- + Tests: a small package, a next layer that plays back chunks, and the theorems at concrete
--   inputs.
--
-- How it is modelled. Memory is split into the arrays that the code owns; a pointer is null, an
-- offset into the array of the object at hand, or a block of the package's own. The state of
-- everything outside is a world that each call takes and gives back, so the order of calls is
-- visible. Where the code writes `static_cast<unsigned long>`, the sum is taken modulo 2 ^ 32.
-- `assert`, BOOST_ASSERT and BOOST_VERIFY give `none` (or `aborted`) when the flag `debug` is set,
-- and are passed by otherwise. The package, the next layer, the functions of Boost.Asio, and the
-- certificate and cryptographic functions of Windows are parameters; what a theorem needs of them
-- is a named hypothesis, which the tests show to hold of a concrete implementation.
--
-- Fuel. The loops of the blocking `handshake` and `read_some` and the event loop take fuel. An
-- iteration of `read_some` that goes on has read at least one byte into an array of 65536, so the
-- free bytes of the array and two are enough. A handshake may go on for as long as the peer sends,
-- so its theorems are about every amount. The event loop takes one unit for each call of a
-- coroutine: one more than the blocking loop has iterations, and two for a write and for the
-- closing token. A session of the examples takes one completion at a time, and a request has six.
--
-- Not modelled: moving a stream and members that only return a reference, message texts of
-- exceptions, the constant fields that are passed to the certificate functions, the `include`s and
-- platform macros, the PEM constants in examples/certificate.hpp, which are parameters, the
-- timeouts of examples/async_https_client.cpp, and the test programs, which call the library over
-- real sockets. What the examples call of Boost.Asio and Boost.Beast is a parameter: the resolver,
-- the connection, the acceptor, io_context::run, the composed reads and writes, and the reading and
-- writing of HTTP.
pub mod Common
pub mod Windows
pub mod ErrorCode
pub mod Asio
pub mod Buffers
pub mod DecryptedData
pub mod Schannel
pub mod Decrypt
pub mod ContextBuffer
pub mod Flags
pub mod Encrypt
pub mod Shutdown
pub mod Context
pub mod Handshake
pub mod NextLayer
pub mod Stream
pub mod Async
pub mod Connection
pub mod Examples
pub mod Certificate
pub mod TlsRecord
mod Tests
