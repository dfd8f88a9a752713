-- ===== src/Stream/Finishing.antt =====
-- stream.hpp, `handshake`: the package finishes with a token that is still to be sent.
use boost_windows_tls.Common.{ℕ, suc, ◌≡◌, ◌≢◌, Bool, true, false, arith, some}
use boost_windows_tls.Windows.{sec_e_ok, sec_i_continue_needed, secbuffer_extra}
use boost_windows_tls.ErrorCode.{ErrorCode, no_error, failed}
use boost_windows_tls.Asio.{Asio}
use boost_windows_tls.ContextBuffer.{asio_buffer, empty_buffer, assign_temporary}
use boost_windows_tls.Schannel.{Schannel}
use boost_windows_tls.Context.{CertApi, Context}
use boost_windows_tls.NextLayer.{NextLayer}
use boost_windows_tls.Handshake.{
  Session, HandshakeState, call_package, has_token, called, hold_token, reset_input, step, digest,
  size_written,
}
use boost_windows_tls.Stream.{finished, handshake_loop, handle_state}

-- The package has finished, and a token of its last flight is to be sent.
pub record LastFlight {World : Type 0} (sspi : Schannel World) (s : Session World) : Type 0 where
  pub goes_on : s.handshake.last_error ≡ sec_i_continue_needed
  pub nothing_held : s.handshake.out_buffer.size ≡ 0
  pub has_input : s.handshake.input_buffers.b0.cb_buffer ≢ 0
  pub finishes : (call_package sspi s.handshake.handshake_type s).status ≡ sec_e_ok
  pub all_used :
      (call_package sspi s.handshake.handshake_type s).input.b1.buffer_type ≢ secbuffer_extra
  pub token : has_token (call_package sspi s.handshake.handshake_type s).output ≡ true

module _ {World : Type 0} (sspi : Schannel World) (net : Asio) (debug : Bool)
    (layer : NextLayer World) where
  -- The session in which the token waits, and the one after it was written.
  abbrev holding : Session World → Session World
  holding s =
      let r = call_package sspi s.handshake.handshake_type s in
      let s' = called sspi r s in
      hold_token sspi r.output (record s' { handshake = reset_input s'.handshake })

  first_step :
      (api : CertApi World) (ctx : Context) (s : Session World)
      → LastFlight sspi s
      → step sspi net debug api ctx s ≡ some (HandshakeState.data_available, holding s)
  unfolding step digest
  first_step api ctx s last = ground arith

  -- A call after the package has finished.
  pub second_step :
      (api : CertApi World) (ctx : Context) (s : Session World)
      → s.handshake.last_error ≡ sec_e_ok
      → step sspi net debug api ctx s ≡ some (HandshakeState.error, s)
  unfolding step
  second_step api ctx s ok = ground arith

  -- The session once the token has been written.
  abbrev written : Session World → Session World
  written s =
      let t = holding s in
      let sent = layer.write (asio_buffer t.handshake.out_buffer) t.world in
      let h = t.handshake in
      record t {
        handshake = record h { out_buffer = empty_buffer };
        world = sspi.free_context_buffer 0 sent.world;
      }

  token_written :
      (s : Session World)
      → (let t = holding s in
          let sent = layer.write (asio_buffer t.handshake.out_buffer) t.world in
          sent.size ≡ t.handshake.out_buffer.size
          → size_written sspi debug sent.size (record t { world = sent.world }) ≡ some (written s))
  unfolding size_written assign_temporary
  token_written s e = ground arith

  -- If the package finishes with a token still to be sent, and sending all of it succeeds, then the
  -- blocking handshake reports success after it, with one and the same session whatever the context
  -- asks for and whatever the certificate functions do: nothing was verified.
  pub handshake_loop-LastFlight :
      (s : Session World)
      → LastFlight sspi s
      → let t = holding s in
        let sent = layer.write (asio_buffer t.handshake.out_buffer) t.world in
        failed sent.error ≡ false
        → sent.size ≡ t.handshake.out_buffer.size
        → (s' : Session World) × ((fuel : ℕ) (api : CertApi World) (ctx : Context) (ec : ErrorCode)
            → handshake_loop sspi net layer debug api ctx (suc (suc fuel)) ec s
              ≡ finished (no_error, s'))
  unfolding handshake_loop handle_state reset_input
  handshake_loop-LastFlight s last fine whole = (
    written s,
    λ fuel api ctx ec. ground (
      arith,
      first_step api ctx s last,
      token_written s whole,
      second_step api ctx (written s) last.finishes,
    ),
  )
