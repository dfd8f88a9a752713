-- ===== src/Stream.antt =====
-- stream.hpp and detail/sspi_stream.hpp: the blocking operations of a TLS stream.
pub mod Reading
pub mod Counting
pub mod Writing
pub mod Finishing
pub mod Invariants
pub mod Bounds
pub mod Ending
pub mod Succeeding
pub mod Leftover
pub mod Plaintext
pub mod Delivery
pub mod Refinement
pub mod Peers
pub mod Keeping
pub mod Repeating
use boost_windows_tls.Common.{
  ℕ, zero, suc, Bool, true, false, if◌then◌else◌, Option, none, some, List, [], Bytes, Array,
  length, store,
}
use boost_windows_tls.ErrorCode.{
  ErrorCode, failed, no_error, make_error_code, Outcome, returns, throw_error,
}
use boost_windows_tls.Asio.{Asio, concat}
use boost_windows_tls.ContextBuffer.{asio_buffer, empty_buffer}
use boost_windows_tls.Schannel.{Handle, null_handle, Schannel}
use boost_windows_tls.Context.{CertApi, Context}
use boost_windows_tls.Handshake.{
  HandshakeType, HandshakeState, SspiHandshake, Session, start, step, size_written, last_error_code,
  new_handshake,
}
use boost_windows_tls.Handshake
use boost_windows_tls.Decrypt.{SspiDecrypt, DecryptState, Stepped, decrypt, new_decrypt}
use boost_windows_tls.Decrypt
use boost_windows_tls.Encrypt.{EncryptBuffers, encrypt, wire, new_encrypt_buffers}
use boost_windows_tls.Shutdown.{SspiShutdown, start_shutdown, shutdown_written}
use boost_windows_tls.NextLayer.{NextLayer}

-- `sspi_stream`, with the arrays' first contents.
pub record SspiStream : Type 0 where
  pub ctxt_handle : Handle
  pub cred_handle : Handle
  pub handshake : SspiHandshake
  pub encrypt : EncryptBuffers
  pub decrypt : SspiDecrypt
  pub shutdown : SspiShutdown

-- The constructor.
unfoldable pub new_stream : Array → Array → Array → SspiStream
new_stream input encrypted decrypted = record {
  ctxt_handle = null_handle;
  cred_handle = null_handle;
  handshake = new_handshake input;
  encrypt = new_encrypt_buffers;
  decrypt = new_decrypt encrypted decrypted;
  shutdown = record { buffer_ = empty_buffer };
}

-- A blocking call: it returns, an assertion stops the program, or the fuel for its loop runs out.
pub data Run {ℓ} (A : Type ℓ) : Type ℓ where
  finished : A → Run A
  aborted : Run A
  unfinished : Run A

-- The bytes that the next layer writes into `in_buffer` or `input_buffer`.
abbrev pub receive_handshake : Bytes → SspiHandshake → SspiHandshake
receive_handshake bs h = record h { input_data = store h.input_data h.in_buffer.offset bs }

abbrev pub receive : Bytes → SspiDecrypt → SspiDecrypt
receive bs d = record d { encrypted_data = store d.encrypted_data d.input_buffer.offset bs }

-- What a read returns: the error, the count, the bytes that reached the caller's buffers, and what
-- it leaves.
pub record ReadSome (World : Type 0) : Type 0 where
  pub error : ErrorCode
  pub count : ℕ
  pub delivered : Bytes
  pub decrypt : SspiDecrypt
  pub world : World

pub record WriteSome (World : Type 0) : Type 0 where
  pub error : ErrorCode
  pub count : ℕ
  pub encrypt : EncryptBuffers
  pub world : World

pub record Closed (World : Type 0) : Type 0 where
  pub error : ErrorCode
  pub shutdown : SspiShutdown
  pub ctxt_handle : Handle
  pub world : World

module _ {World : Type 0} (sspi : Schannel World) (net : Asio) (layer : NextLayer World)
    (debug : Bool) where
  module _ (api : CertApi World) (ctx : Context) where
    -- One iteration's answer to each state of the handshake. `rest` is the next iteration.
    unfoldable pub handle_state :
        (ErrorCode → Session World → Run (ErrorCode × Session World))
        → ErrorCode
        → HandshakeState
        → Session World
        → Run (ErrorCode × Session World)
    handle_state rest ec HandshakeState.done s = finished (ec, s)
    handle_state rest ec HandshakeState.error s = finished (last_error_code s.handshake, s)
    handle_state rest ec HandshakeState.data_needed s =
        let r = layer.read_some s.handshake.in_buffer.size s.world in
        let h = receive_handshake r.bytes s.handshake in
        elim (failed r.error) [
          | true ↦ finished (r.error, record s { handshake = h; world = r.world })
          | false ↦
              rest r.error (record s {
                handshake = Handshake.size_read net (length r.bytes) h;
                world = r.world;
              })
        ]
    handle_state rest ec HandshakeState.data_available s =
        let r = layer.write (asio_buffer s.handshake.out_buffer) s.world in
        elim (failed r.error) [
          | true ↦ finished (r.error, record s { world = r.world })
          | false ↦ elim (size_written sspi debug r.size (record s { world = r.world })) [
            | none ↦ aborted
            | some s' ↦ rest r.error s'
          ]
        ]

    -- The loop of `handshake`, with fuel for the iterations.
    unfoldable pub handshake_loop : ℕ → ErrorCode → Session World → Run (ErrorCode × Session World)
    handshake_loop zero ec s = unfinished
    handshake_loop (suc fuel) ec s = elim (step sspi net debug api ctx s) [
      | none ↦ aborted
      | some (state, s') ↦ handle_state (handshake_loop fuel) ec state s'
    ]

    -- `handshake(type, ec)`
    unfoldable pub handshake :
        ℕ → HandshakeType → ErrorCode → Session World → Run (ErrorCode × Session World)
    handshake fuel type ec s = handshake_loop fuel ec (start sspi ctx type s)

    -- `handshake(type)`
    unfoldable pub handshake_or_throw :
        ℕ → HandshakeType → Session World → Run (Outcome (Unit {0}) × Session World)
    handshake_or_throw fuel type s = elim (handshake fuel type no_error s) [
      | finished (ec, s') ↦ finished (if failed ec then throw_error ec else returns tt, s')
      | aborted ↦ aborted
      | unfinished ↦ unfinished
    ]

  -- What `read_some` does with each state; `rest` is the next iteration.
  unfoldable pub handle_decrypted :
      (ErrorCode → SspiDecrypt → World → Run (ReadSome World))
      → ErrorCode
      → Stepped World
      → Run (ReadSome World)
  handle_decrypted rest ec s = elim s.state [
    | DecryptState.data_needed ↦
        let r = layer.read_some s.decrypt.input_buffer.size s.world in
        let d = receive r.bytes s.decrypt in
        elim (failed r.error) [
          | true ↦
              finished (record {
                error = r.error;
                count = 0;
                delivered = [];
                decrypt = d;
                world = r.world;
              })
          | false ↦ rest r.error (Decrypt.size_read net (length r.bytes) d) r.world
        ]
    | DecryptState.error ↦ finished (record {
      error = make_error_code s.decrypt.last_error;
      count = 0;
      delivered = [];
      decrypt = s.decrypt;
      world = s.world;
    })
    | DecryptState.data_available ↦ finished (record {
      error = ec;
      count = s.decrypt.size_decrypted;
      delivered = s.delivered;
      decrypt = s.decrypt;
      world = s.world;
    })
  ]

  -- `read_some(buffers, ec)`, for buffers of these sizes, with fuel for the iterations.
  unfoldable pub read_some :
      ℕ → Handle → List ℕ → ErrorCode → SspiDecrypt → World → Run (ReadSome World)
  read_some zero ctxt sizes ec d w = unfinished
  read_some (suc fuel) ctxt sizes ec d w = elim (decrypt sspi net debug ctxt sizes d w) [
    | none ↦ aborted
    | some s ↦ handle_decrypted (read_some fuel ctxt sizes) ec s
  ]

  -- `read_some(buffers)`. On success the source's function ends without a return statement, so no
  -- count is returned.
  unfoldable pub read_some_or_throw :
      ℕ → Handle → List ℕ → SspiDecrypt → World → Run (Outcome (Unit {0}) × ReadSome World)
  read_some_or_throw fuel ctxt sizes d w = elim (read_some fuel ctxt sizes no_error d w) [
    | finished r ↦ finished (if failed r.error then throw_error r.error else returns tt, r)
    | aborted ↦ aborted
    | unfinished ↦ unfinished
  ]

module _ {World : Type 0} (sspi : Schannel World) (net : Asio) (layer : NextLayer World) where
  -- `write_some(buffers, ec)`
  unfoldable pub write_some :
      Handle → List Bytes → ErrorCode → EncryptBuffers → World → WriteSome World
  write_some ctxt source ec e w =
      let out = encrypt sspi net ctxt source ec e w in
      let sent = layer.write (concat (wire out.buffers)) out.world in
      if failed out.error
      then record { error = out.error; count = 0; encrypt = out.buffers; world = out.world }
      else (if failed sent.error
          then record { error = sent.error; count = 0; encrypt = out.buffers; world = sent.world }
          else record {
            error = sent.error;
            count = out.size_encrypted;
            encrypt = out.buffers;
            world = sent.world;
          })

  -- `write_some(buffers)`, which returns no count either.
  unfoldable pub write_some_or_throw :
      Handle → List Bytes → EncryptBuffers → World → Outcome (Unit {0}) × WriteSome World
  write_some_or_throw ctxt source e w =
      let r = write_some ctxt source no_error e w in
      (if failed r.error then throw_error r.error else returns tt, r)

module _ {World : Type 0} (sspi : Schannel World) (layer : NextLayer World) (debug : Bool) where
  -- `shutdown(ec)`. `none`: the check in `size_written` stopped the program.
  unfoldable pub shutdown : Handle → Handle → SspiShutdown → World → Option (Closed World)
  shutdown cred ctxt s w =
      let r = start_shutdown sspi cred ctxt s w in
      let sent = layer.write (asio_buffer r.shutdown.buffer_) r.world in
      let closed : Closed World = record {
        error = sent.error;
        shutdown = r.shutdown;
        ctxt_handle = r.ctxt_handle;
        world = sent.world;
      } in
      if failed r.error
      then some (record {
        error = r.error;
        shutdown = r.shutdown;
        ctxt_handle = r.ctxt_handle;
        world = r.world;
      })
      else (if failed sent.error
          then some closed
          else elim (shutdown_written sspi debug sent.size r.shutdown sent.world) [
            | none ↦ none
            | some (s', w') ↦ some (record closed { shutdown = s'; world = w' })
          ])
