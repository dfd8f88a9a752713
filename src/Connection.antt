-- ===== src/Connection.antt =====
-- stream.hpp and detail/sspi_stream.hpp: a stream as one object. Its operations share the two
-- handles, which the handshake sets and the others pass to the security package.
pub mod Holdings
pub mod Lifetime
pub mod Duplex
pub mod Verifying
use boost_windows_tls.Common.{
  ◌≡◌, refl, arith, ℕ, Bool, if◌then◌else◌, Option, none, some, List, [], Bytes, Array,
}
use boost_windows_tls.ErrorCode.{ErrorCode, no_error, failed, Outcome, returns, throws, throw_error}
use boost_windows_tls.Asio.{Asio}
use boost_windows_tls.ContextBuffer.{destroy}
use boost_windows_tls.Schannel.{Handle, Schannel, is_set}
use boost_windows_tls.Context.{CertApi, Context}
use boost_windows_tls.NextLayer.{NextLayer}
use boost_windows_tls.Handshake.{HandshakeType, Session}
use boost_windows_tls.Handshake
use boost_windows_tls.Stream.{
  SspiStream, new_stream, Run, finished, aborted, unfinished, ReadSome, WriteSome, Closed,
}
use boost_windows_tls.Stream
use boost_windows_tls.Async

-- What the program runs on: the security package, the functions on buffers, the stream below, the
-- certificate functions, and whether assertions are on.
pub record Platform (World : Type 0) : Type 0 where
  pub sspi : Schannel World
  pub asio : Asio
  pub layer : NextLayer World
  pub certs : CertApi World
  pub debug : Bool

-- `stream<NextLayer>`; the next layer is in the world.
pub record TlsStream (World : Type 0) : Type 0 where
  pub sspi_stream : SspiStream
  pub world : World

-- How an operation ends: the error code, the count and the bytes for the caller where the operation
-- has them, and the stream.
pub record Completion (World : Type 0) : Type 0 where
  pub error : ErrorCode
  pub count : ℕ
  pub delivered : Bytes
  pub stream : TlsStream World

abbrev pub run_map {ℓ κ} : {A : Type ℓ} {B : Type κ} → (A → B) → Run A → Run B
run_map f (finished a) = finished (f a)
run_map f aborted = aborted
run_map f unfinished = unfinished

-- What follows a run that finishes.
abbrev pub run_then {ℓ κ} : {A : Type ℓ} {B : Type κ} → Run A → (A → Run B) → Run B
run_then (finished a) f = f a
run_then aborted f = aborted
run_then unfinished f = unfinished

-- Two runs finish as they do one behind the other.
pub run_then_ends {ℓ κ} :
    {A : Type ℓ} {B : Type κ} (r : Run A) (f : A → Run B) (b : B)
    → run_then r f ≡ finished b
    → (a : A) × (r ≡ finished a) × (f a ≡ finished b)
run_then_ends (finished a) f b e = (a, refl, e)
run_then_ends aborted f b e = absurd (ground arith)
run_then_ends unfinished f b e = absurd (ground arith)

-- A mapped run finishes as the run does.
pub run_map_ends {ℓ κ} :
    {A : Type ℓ} {B : Type κ} (f : A → B) (r : Run A) (b : B)
    → run_map f r ≡ finished b
    → (a : A) × (r ≡ finished a) × (b ≡ f a)
run_map_ends f (finished a) b e = (a, refl, ground arith)
run_map_ends f aborted b e = absurd (ground arith)
run_map_ends f unfinished b e = absurd (ground arith)

-- `boost::asio::async_write(stream, buffer)`, with fuel: how it completes.
abbrev pub AsyncWrite : Type 0 → Type 0
AsyncWrite World = ℕ → Bytes → TlsStream World → Run (Completion World)

-- The overloads without an error code: an error is thrown.
abbrev pub or_throw : {World : Type 0} → Completion World → Outcome (Unit {0}) × TlsStream World
or_throw c = (if failed c.error then throw_error c.error else returns tt, c.stream)

module _ {World : Type 0} where
  -- The constructor. The arrays start with whatever they held.
  unfoldable pub construct : Array → Array → Array → World → TlsStream World
  construct input encrypted decrypted w = record {
    sspi_stream = new_stream input encrypted decrypted;
    world = w;
  }

  -- What the handshake works on, and what it leaves.
  abbrev pub session_of : TlsStream World → Session World
  session_of t = record {
    handshake = t.sspi_stream.handshake;
    ctxt_handle = t.sspi_stream.ctxt_handle;
    cred_handle = t.sspi_stream.cred_handle;
    world = t.world;
  }

  abbrev pub after_handshake : TlsStream World → ErrorCode × Session World → Completion World
  after_handshake t (ec, s) = record {
    error = ec;
    count = 0;
    delivered = [];
    stream = record {
      sspi_stream = record t.sspi_stream {
        handshake = s.handshake;
        ctxt_handle = s.ctxt_handle;
        cred_handle = s.cred_handle;
      };
      world = s.world;
    };
  }

  abbrev pub after_read : TlsStream World → ReadSome World → Completion World
  after_read t r = record {
    error = r.error;
    count = r.count;
    delivered = r.delivered;
    stream = record { sspi_stream = record t.sspi_stream { decrypt = r.decrypt }; world = r.world };
  }

  abbrev pub after_write : TlsStream World → WriteSome World → Completion World
  after_write t r = record {
    error = r.error;
    count = r.count;
    delivered = [];
    stream = record { sspi_stream = record t.sspi_stream { encrypt = r.encrypt }; world = r.world };
  }

  abbrev pub after_shutdown : TlsStream World → Closed World → Completion World
  after_shutdown t r = record {
    error = r.error;
    count = 0;
    delivered = [];
    stream = record {
      sspi_stream = record t.sspi_stream { shutdown = r.shutdown; ctxt_handle = r.ctxt_handle };
      world = r.world;
    };
  }

-- `set_server_hostname`, with the conversion to wide characters. `none`: it did not take every byte.
unfoldable pub set_server_hostname :
    {World : Type 0}
    → Bool
    → (Bytes → ℕ × Bytes)
    → Bytes
    → TlsStream World
    → Option (TlsStream World)
set_server_hostname debug mbstowcs hostname t =
    elim (Handshake.set_server_hostname debug mbstowcs hostname t.sspi_stream.handshake) [
      | none ↦ none
      | some h ↦ some (record t { sspi_stream = record t.sspi_stream { handshake = h } })
    ]

module _ {World : Type 0} (p : Platform World) where
  -- The members of `sspi_stream` in the reverse of their order: the token of the shutdown, that of the
  -- handshake, the credentials, and the security context. A handle that is not set is left alone.
  unfoldable pub destruct : TlsStream World → World
  destruct t =
      let st = t.sspi_stream in
      let w = p.sspi.free_context_buffer (destroy st.shutdown.buffer_) t.world in
      let w' = p.sspi.free_context_buffer (destroy st.handshake.out_buffer) w in
      let w'' =
        if is_set st.cred_handle then p.sspi.free_credentials_handle st.cred_handle w' else w' in
      if is_set st.ctxt_handle then p.sspi.delete_security_context st.ctxt_handle w'' else w''

  module _ (ctx : Context) where
    -- `handshake(type, ec)`
    unfoldable pub handshake :
        ℕ → HandshakeType → ErrorCode → TlsStream World → Run (Completion World)
    handshake fuel type ec t =
        run_map (after_handshake t)
          (Stream.handshake p.sspi p.asio p.layer p.debug p.certs ctx fuel type ec (session_of t))

    -- `async_handshake(type, handler)`: how it completes.
    unfoldable pub async_handshake : ℕ → HandshakeType → TlsStream World → Run (Completion World)
    async_handshake fuel type t = run_map (after_handshake t) (
        Async.Handshake.async_handshake p.sspi p.asio p.debug p.certs ctx p.layer fuel type
          (session_of t))

  -- `read_some(buffers, ec)`
  unfoldable pub read_some : ℕ → List ℕ → ErrorCode → TlsStream World → Run (Completion World)
  read_some fuel sizes ec t = run_map (after_read t) (
      Stream.read_some p.sspi p.asio p.layer p.debug fuel t.sspi_stream.ctxt_handle sizes ec
        t.sspi_stream.decrypt t.world)

  -- `async_read_some(buffers, handler)`
  unfoldable pub async_read_some : ℕ → List ℕ → TlsStream World → Run (Completion World)
  async_read_some fuel sizes t = run_map (after_read t) (
      Async.Read.async_read p.sspi p.asio p.debug t.sspi_stream.ctxt_handle sizes p.layer fuel
        t.sspi_stream.decrypt t.world)

  -- `write_some(buffers, ec)`
  unfoldable pub write_some : List Bytes → ErrorCode → TlsStream World → Completion World
  write_some source ec t = after_write t (
      Stream.write_some p.sspi p.asio p.layer t.sspi_stream.ctxt_handle source ec
        t.sspi_stream.encrypt t.world)

  -- `async_write_some(buffers, handler)`
  unfoldable pub async_write_some : ℕ → List Bytes → TlsStream World → Run (Completion World)
  async_write_some fuel source t = run_map (after_write t) (
      Async.Write.async_write_some p.sspi p.asio t.sspi_stream.ctxt_handle source p.layer fuel
        t.sspi_stream.encrypt t.world)

  -- `shutdown(ec)`. `none`: an assertion stopped the program.
  unfoldable pub shutdown : TlsStream World → Option (Completion World)
  shutdown t =
      elim (Stream.shutdown p.sspi p.layer p.debug t.sspi_stream.cred_handle
        t.sspi_stream.ctxt_handle t.sspi_stream.shutdown t.world) [
          | none ↦ none
          | some r ↦ some (after_shutdown t r)
        ]

  -- `async_shutdown(handler)`
  unfoldable pub async_shutdown : ℕ → TlsStream World → Run (Completion World)
  async_shutdown fuel t = run_map (after_shutdown t) (
      Async.Shutdown.async_shutdown p.sspi p.debug t.sspi_stream.cred_handle p.layer fuel
        t.sspi_stream.shutdown t.sspi_stream.ctxt_handle t.world)
