-- ===== src/Async/HandshakeLaws.antt =====
-- detail/async_handshake.hpp beside the blocking handshake.
use boost_windows_tls.Common.{
  ℕ, zero, suc, ◌≡◌, refl, arith, Bool, false, none, some, Bytes, length, Option-cases, inl, inr,
}
use boost_windows_tls.Windows.{sec_e_ok}
use boost_windows_tls.ErrorCode.{ErrorCode, failed, no_error}
use boost_windows_tls.Asio.{Asio}
use boost_windows_tls.ContextBuffer.{asio_buffer}
use boost_windows_tls.Schannel.{Schannel}
use boost_windows_tls.Context.{CertApi, Context}
use boost_windows_tls.NextLayer.{NextLayer}
use boost_windows_tls.Handshake.{
  HandshakeType, HandshakeState, Session, start, step, digest, conclude, reset_input, size_written,
  last_error_code,
}
use boost_windows_tls.Handshake
use boost_windows_tls.Stream.{
  Run, finished, aborted, receive_handshake, handshake, handshake_loop, handle_state,
}
use boost_windows_tls.Async.Handshake.{
  AsyncHandshake, idle, loop_head, new_async, answer, take_result, loop, reenter, resume, perform,
  run, async_handshake,
}

-- An operation that does not fail clears the error code.
pub record ClearsErrors {World : Type 0} (layer : NextLayer World) : Type 0 where
  pub read_clears :
      (n : ℕ) (w : World)
      → failed (layer.read_some n w).error ≡ false
      → (layer.read_some n w).error ≡ no_error
  pub write_clears :
      (bs : Bytes) (w : World)
      → failed (layer.write bs w).error ≡ false
      → (layer.write bs w).error ≡ no_error

module _ {World : Type 0} (sspi : Schannel World) (net : Asio) (debug : Bool) (api : CertApi World)
    (ctx : Context) where
  -- The machine answers `done` only with no error left.
  step_done_no_error :
      (s s' : Session World)
      → step sspi net debug api ctx s ≡ some (HandshakeState.done, s')
      → s'.handshake.last_error ≡ sec_e_ok
  unfolding step digest conclude reset_input
  step_done_no_error s s' e = ground arith

  module _ (layer : NextLayer World) (clean : ClearsErrors layer) where
    -- The turn from the head of the loop on, with the turns that follow.
    run_loop : ℕ → AsyncHandshake → ℕ → Session World → Run (ErrorCode × Session World)
    run_loop fuel a size s = elim (loop sspi net debug api ctx a no_error size s) [
      | none ↦ aborted
      | some t ↦ perform sspi net debug api ctx layer (run sspi net debug api ctx layer fuel) t
    ]

    abbrev blocking : ℕ → Session World → Run (ErrorCode × Session World)
    blocking fuel s = handshake_loop sspi net layer debug api ctx fuel no_error s

    turn_same :
        (fuel size : ℕ) (a : AsyncHandshake) (state : HandshakeState) (s s₁ : Session World)
        (out : ErrorCode × Session World)
        → step sspi net debug api ctx s ≡ some (state, s₁)
        → a.state ≡ idle
        → ((a' : AsyncHandshake) (size' : ℕ) (s' : Session World)
            → a'.state ≡ idle
            → blocking fuel s' ≡ finished out
            → run_loop fuel a' size' s' ≡ finished out)
        → handle_state sspi net layer debug api ctx
            (handshake_loop sspi net layer debug api ctx fuel)
            no_error
            state
            s₁
          ≡ finished out
        → run_loop (suc fuel) a size s ≡ finished out
    unfolding run_loop loop answer perform run resume reenter take_result handle_state
    turn_same fuel size a HandshakeState.done s s₁ out e at_head ih h =
        ground (arith, e, step_done_no_error s s₁)
    turn_same fuel size a HandshakeState.error s s₁ out e at_head ih h = ground (arith, e)
    turn_same fuel size a HandshakeState.data_needed s s₁ out e at_head ih h =
        let n = layer.read_some s₁.handshake.in_buffer.size s₁.world in
        ground (
          arith,
          e,
          clean.read_clears s₁.handshake.in_buffer.size s₁.world,
          ih (record { entry_count = suc a.entry_count; state = idle; point = loop_head })
              (length n.bytes)
              (record s₁ {
                handshake =
                    Handshake.size_read net (length n.bytes)
                      (receive_handshake n.bytes s₁.handshake);
                world = n.world;
              }),
        )
    turn_same fuel size a HandshakeState.data_available s s₁ out e at_head ih h =
        let n = layer.write (asio_buffer s₁.handshake.out_buffer) s₁.world in
        elim (Option-cases (size_written sspi debug n.size (record s₁ { world = n.world }))) [
          | inl stopped ↦ ground (arith, e, stopped)
          | inr (s', taken) ↦ ground (
            arith,
            e,
            taken,
            clean.write_clears (asio_buffer s₁.handshake.out_buffer) s₁.world,
            ih (record { entry_count = suc a.entry_count; state = idle; point = loop_head }) n.size
                s',
          )
        ]

    run_loop_same :
        (fuel size : ℕ) (a : AsyncHandshake) (s : Session World) (out : ErrorCode × Session World)
        → a.state ≡ idle
        → blocking fuel s ≡ finished out
        → run_loop fuel a size s ≡ finished out
    unfolding handshake_loop
    run_loop_same zero size a s out at_head h = ground arith
    run_loop_same (suc fuel) size a s out at_head h =
        elim (Option-cases (step sspi net debug api ctx s)) [
          | inl stopped ↦ ground (arith, stopped)
          | inr (p, stepped) ↦
              turn_same fuel size a p.0 s p.1 out stepped at_head
                (λ a' size' s' head' h'. run_loop_same fuel size' a' s' out head' h')
                (ground (arith, stepped))
        ]

    -- Whatever the blocking handshake returns, the handler of the asynchronous handshake gets, if
    -- the next layer clears the error code when it does not fail: the error and the session. It
    -- takes at most one more call of the coroutine than the blocking handshake was given
    -- iterations.
    pub async_handshake_same :
        (fuel : ℕ) (type : HandshakeType) (s : Session World) (out : ErrorCode × Session World)
        → handshake sspi net layer debug api ctx fuel type no_error s ≡ finished out
        → async_handshake sspi net debug api ctx layer (suc fuel) type s ≡ finished out
    unfolding async_handshake handshake run resume reenter take_result run_loop
    async_handshake_same fuel type s out h =
        run_loop_same fuel 0 (record new_async { entry_count = 1 }) (start sspi ctx type s) out refl
          h

    -- The other way round: what follows one turn of the coroutine follows one iteration of the loop.
    turn_sound :
        (fuel size : ℕ) (a : AsyncHandshake) (state : HandshakeState) (s s₁ : Session World)
        (out : ErrorCode × Session World)
        → step sspi net debug api ctx s ≡ some (state, s₁)
        → a.state ≡ idle
        → ((a' : AsyncHandshake) (size' : ℕ) (s' : Session World)
            → a'.state ≡ idle
            → run_loop fuel a' size' s' ≡ finished out
            → blocking (suc fuel) s' ≡ finished out)
        → run_loop (suc fuel) a size s ≡ finished out
        → handle_state sspi net layer debug api ctx
            (handshake_loop sspi net layer debug api ctx (suc fuel))
            no_error
            state
            s₁
          ≡ finished out
    unfolding run_loop loop answer perform run resume reenter take_result handle_state
    turn_sound fuel size a HandshakeState.done s s₁ out e at_head ih h =
        ground (arith, e, step_done_no_error s s₁)
    turn_sound fuel size a HandshakeState.error s s₁ out e at_head ih h = ground (arith, e)
    turn_sound fuel size a HandshakeState.data_needed s s₁ out e at_head ih h =
        let n = layer.read_some s₁.handshake.in_buffer.size s₁.world in
        ground (
          arith,
          e,
          clean.read_clears s₁.handshake.in_buffer.size s₁.world,
          ih (record { entry_count = suc a.entry_count; state = idle; point = loop_head })
              (length n.bytes)
              (record s₁ {
                handshake =
                    Handshake.size_read net (length n.bytes)
                      (receive_handshake n.bytes s₁.handshake);
                world = n.world;
              }),
        )
    turn_sound fuel size a HandshakeState.data_available s s₁ out e at_head ih h =
        let n = layer.write (asio_buffer s₁.handshake.out_buffer) s₁.world in
        elim (Option-cases (size_written sspi debug n.size (record s₁ { world = n.world }))) [
          | inl stopped ↦ ground (arith, e, stopped)
          | inr (s', taken) ↦ ground (
            arith,
            e,
            taken,
            clean.write_clears (asio_buffer s₁.handshake.out_buffer) s₁.world,
            ih (record { entry_count = suc a.entry_count; state = idle; point = loop_head }) n.size
                s',
          )
        ]

    last_turn :
        (size : ℕ) (a : AsyncHandshake) (state : HandshakeState) (s s₁ : Session World)
        (out : ErrorCode × Session World)
        → step sspi net debug api ctx s ≡ some (state, s₁)
        → run_loop zero a size s ≡ finished out
        → handle_state sspi net layer debug api ctx
            (handshake_loop sspi net layer debug api ctx zero)
            no_error
            state
            s₁
          ≡ finished out
    unfolding run_loop loop answer perform run handle_state
    last_turn size a HandshakeState.done s s₁ out e h = ground (arith, e, step_done_no_error s s₁)
    last_turn size a HandshakeState.error s s₁ out e h = ground (arith, e)
    last_turn size a HandshakeState.data_needed s s₁ out e h = ground (arith, e)
    last_turn size a HandshakeState.data_available s s₁ out e h = ground (arith, e)

    run_loop_sound :
        (fuel size : ℕ) (a : AsyncHandshake) (s : Session World) (out : ErrorCode × Session World)
        → a.state ≡ idle
        → run_loop fuel a size s ≡ finished out
        → blocking (suc fuel) s ≡ finished out
    unfolding handshake_loop run_loop loop
    run_loop_sound zero size a s out at_head h =
        elim (Option-cases (step sspi net debug api ctx s)) [
          | inl stopped ↦ ground (arith, stopped)
          | inr (p, stepped) ↦
              let turned = last_turn size a p.0 s p.1 out stepped h in
              ground (arith, stepped, turned)
        ]
    run_loop_sound (suc fuel) size a s out at_head h =
        elim (Option-cases (step sspi net debug api ctx s)) [
          | inl stopped ↦ ground (arith, stopped)
          | inr (p, stepped) ↦
              let turned =
                turn_sound fuel size a p.0 s p.1 out stepped at_head
                  (λ a' size' s' head' h'. run_loop_sound fuel size' a' s' out head' h') h in
              ground (arith, stepped, turned)
        ]

    -- What the handler gets, a blocking handshake returns that is given as many iterations.
    pub async_handshake_sound :
        (fuel : ℕ) (type : HandshakeType) (s : Session World) (out : ErrorCode × Session World)
        → async_handshake sspi net debug api ctx layer fuel type s ≡ finished out
        → handshake sspi net layer debug api ctx fuel type no_error s ≡ finished out
    unfolding async_handshake handshake run resume reenter take_result run_loop
    async_handshake_sound zero type s out h = absurd (ground arith)
    async_handshake_sound (suc fuel) type s out h =
        run_loop_sound fuel 0 (record new_async { entry_count = 1 }) (start sspi ctx type s) out
          refl h
