-- ===== src/Stream/Leftover.antt =====
-- stream.hpp, `handshake`: the package finishes with input to spare, and a token that comes with it.
use boost_windows_tls.Common.{
  refl, ◌==◌, if◌then◌else◌, zero, Option-cases, Bool-cases, inl, inr, ℕ, suc, ◌<◌, ◌≡◌, ◌≢◌, arith,
  Bool, false, some, length,
}
use boost_windows_tls.Windows.{sec_e_ok, sec_i_continue_needed, secbuffer_extra, secbuffer_token}
use boost_windows_tls.ErrorCode.{ErrorCode, no_error, failed}
use boost_windows_tls.Asio.{Asio, IsDocumented, buffer}
use boost_windows_tls.Schannel.{Schannel, ContextResult}
use boost_windows_tls.Buffers.{sspi_buffer}
use boost_windows_tls.Context.{CertApi, Context}
use boost_windows_tls.NextLayer.{NextLayer}
use boost_windows_tls.Handshake.{
  HandshakeType, client, server, conclude, verify_peer, size_written, stored_context, Session,
  HandshakeState, call_package, called, reuse_extra, step, digest, input_size,
}
use boost_windows_tls.Handshake
use boost_windows_tls.Stream.Finishing.{second_step}
use boost_windows_tls.Stream.{Run, finished, receive_handshake, handshake_loop, handle_state}

-- The package has finished, and has not used all of the input.
pub record Spares {World : Type 0} (sspi : Schannel World) (s : Session World) : Type 0 where
  pub goes_on : s.handshake.last_error ≡ sec_i_continue_needed
  pub nothing_held : s.handshake.out_buffer.size ≡ 0
  pub has_input : s.handshake.input_buffers.b0.cb_buffer ≢ 0
  pub finishes : (call_package sspi s.handshake.handshake_type s).status ≡ sec_e_ok
  pub extra :
      (call_package sspi s.handshake.handshake_type s).input.b1.buffer_type ≡ secbuffer_extra
  pub room : (call_package sspi s.handshake.handshake_type s).input.b1.cb_buffer < input_size

module _ {World : Type 0} (sspi : Schannel World) (net : Asio) (laws : IsDocumented net)
    (debug : Bool) (layer : NextLayer World) where
  -- The session in which the spare input has been moved to the front.
  abbrev pub moved : Session World → Session World
  moved s =
      let s' = called sspi (call_package sspi s.handshake.handshake_type s) s in
      record s' { handshake = reuse_extra net s'.handshake }

  first_step :
      (api : CertApi World) (ctx : Context) (s : Session World)
      → Spares sspi s
      → step sspi net debug api ctx s ≡ some (HandshakeState.data_needed, moved s)
  unfolding step digest reuse_extra
  first_step api ctx s spares =
      let n = (call_package sspi s.handshake.handshake_type s).input.b1.cb_buffer in
      ground (arith, laws.advance_lem (buffer input_size) n, spares.room)

  -- If the package finishes with input to spare that does not fill the array, then the blocking
  -- handshake reads from the next layer, and if that succeeds it reports success: the session is
  -- the one with the spare bytes moved to the front, the bytes read behind them, and the world of
  -- that read, whatever the context asks for and whatever the certificate functions do. Nothing was
  -- verified.
  pub handshake_loop-Spares :
      (s : Session World) (fuel : ℕ) (api : CertApi World) (ctx : Context) (ec : ErrorCode)
      → Spares sspi s
      → let t = moved s in
        let r = layer.read_some t.handshake.in_buffer.size t.world in
        failed r.error ≡ false
        → handshake_loop sspi net layer debug api ctx (suc (suc fuel)) ec s
          ≡ finished (
            no_error,
            record t {
              handshake =
                  Handshake.size_read net (length r.bytes) (receive_handshake r.bytes t.handshake);
              world = r.world;
            },
          )
  unfolding handshake_loop handle_state reuse_extra Handshake.size_read
  handshake_loop-Spares s fuel api ctx ec spares fine =
      let t = moved s in
      let r = layer.read_some t.handshake.in_buffer.size t.world in
      let s' : Session World = record t {
        handshake =
            Handshake.size_read net (length r.bytes) (receive_handshake r.bytes t.handshake);
        world = r.world;
      } in
      ground (
        arith,
        first_step api ctx s spares,
        second_step sspi net debug layer api ctx s' spares.finishes,
      )

-- The answer of the package, without the token if there is input to spare.
abbrev pub without_token : {World : Type 0} → ContextResult World → ContextResult World
without_token r = record r {
  output =
      if r.input.b1.buffer_type == secbuffer_extra then sspi_buffer secbuffer_token else r.output;
}

-- The package that never gives a token together with input to spare.
abbrev pub tokenless : {World : Type 0} → Schannel World → Schannel World
tokenless sspi = record sspi {
  initialize_security_context = λ args w. without_token (sspi.initialize_security_context args w);
  accept_security_context = λ args w. without_token (sspi.accept_security_context args w);
}

module _ {World : Type 0} (sspi : Schannel World) (net : Asio) (debug : Bool)
    (layer : NextLayer World) (api : CertApi World) (ctx : Context) where
  call-tokenless :
      (type : HandshakeType) (s : Session World)
      → call_package (tokenless sspi) type s ≡ without_token (call_package sspi type s)
  unfolding call_package
  call-tokenless client s = refl
  call-tokenless server s = refl

  stored-tokenless :
      (type : HandshakeType) (s : Session World) (r : ContextResult World)
      → stored_context (tokenless sspi) type s (without_token r) ≡ stored_context sspi type s r
  stored-tokenless client s r = refl
  stored-tokenless server s r = refl

  digest-tokenless :
      (r : ContextResult World) (s : Session World)
      → digest (tokenless sspi) net debug api ctx (without_token r) s
        ≡ digest sspi net debug api ctx r s
  unfolding digest conclude verify_peer
  digest-tokenless r s = elim (Bool-cases (r.input.b1.buffer_type == secbuffer_extra)) [
    | inl extra ↦ rw (stored-tokenless s.handshake.handshake_type s r, extra) refl
    | inr used ↦ rw (stored-tokenless s.handshake.handshake_type s r, used) refl
  ]

  step-tokenless :
      (s : Session World)
      → step (tokenless sspi) net debug api ctx s ≡ step sspi net debug api ctx s
  unfolding step
  step-tokenless s =
      let type = s.handshake.handshake_type in
      rw (call-tokenless type s, digest-tokenless (call_package sspi type s) s) refl

  handle_state-tokenless :
      (rest rest' : ErrorCode → Session World → Run (ErrorCode × Session World)) (ec : ErrorCode)
      (state : HandshakeState) (s : Session World)
      → ((ec' : ErrorCode) (t : Session World) → rest ec' t ≡ rest' ec' t)
      → handle_state (tokenless sspi) net layer debug api ctx rest ec state s
        ≡ handle_state sspi net layer debug api ctx rest' ec state s
  unfolding handle_state size_written
  handle_state-tokenless rest rest' ec state s same i =
      handle_state sspi net layer debug api ctx (λ ec' t. same ec' t i) ec state s

  -- A token that the package gives together with input to spare has no effect: the blocking
  -- handshake, with any fuel and from any session, is the same as with a package that gives none
  -- then. The token is neither sent nor freed.
  pub handshake_loop-tokenless :
      (fuel : ℕ) (ec : ErrorCode) (s : Session World)
      → handshake_loop (tokenless sspi) net layer debug api ctx fuel ec s
        ≡ handshake_loop sspi net layer debug api ctx fuel ec s
  unfolding handshake_loop
  handshake_loop-tokenless zero ec s = refl
  handshake_loop-tokenless (suc fuel) ec s = elim (Option-cases (step sspi net debug api ctx s)) [
    | inl stopped ↦ ground (arith, step-tokenless s, stopped)
    | inr (p, stepped) ↦ ground (
      arith,
      step-tokenless s,
      stepped,
      handle_state-tokenless (handshake_loop (tokenless sspi) net layer debug api ctx fuel)
          (handshake_loop sspi net layer debug api ctx fuel) ec p.0 p.1
          (λ ec' t. handshake_loop-tokenless fuel ec' t),
    )
  ]
