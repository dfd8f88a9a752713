-- ===== src/Stream/Ending.antt =====
-- stream.hpp, `handshake`: the iterations of its loop.
use boost_windows_tls.Common.{
  Bytes, ℕ, zero, suc, ◌+◌, ◌*◌, ◌≤◌, ◌<◌, ◌≡◌, ◌≢◌, arith, true, false, some, length, Bool-cases,
  Option-cases, inl, inr,
}
use boost_windows_tls.ErrorCode.{ErrorCode, failed}
use boost_windows_tls.Asio.{Asio, IsDocumented}
use boost_windows_tls.ContextBuffer.{asio_buffer, assign_temporary}
use boost_windows_tls.Schannel.{Schannel}
use boost_windows_tls.Context.{CertApi, Context}
use boost_windows_tls.NextLayer.{NextLayer, IsStream}
use boost_windows_tls.Handshake.{
  SspiHandshake, Session, HandshakeState, step, size_written, input_size,
}
use boost_windows_tls.Handshake
use boost_windows_tls.Handshake.Steps.{IsValid, TakesInput}
use boost_windows_tls.Handshake.Progress.{Measures, held, fed, step_needs, step_sends}
use boost_windows_tls.Stream.{Run, unfinished, receive_handshake, handle_state, handshake_loop}
use boost_windows_tls.Stream.Bounds.{read-IsValid, step-IsValid, written-IsValid}

module _ {World : Type 0} (sspi : Schannel World) (measure : Measures sspi)
    (layer : NextLayer World) where
  -- A read into a buffer that is not empty takes something from what is still to come, or fails; a
  -- write adds nothing.
  pub record RunsDry : Type 0 where
    pub reads :
        (n : ℕ) (w : World)
        → 0 < n
        → failed (layer.read_some n w).error ≡ false
        → measure.remaining (layer.read_some n w).world < measure.remaining w
    pub writes :
        (bs : Bytes) (w : World) → measure.remaining (layer.write bs w).world ≤ measure.remaining w

module _ {World : Type 0} (sspi : Schannel World) (measure : Measures sspi)
    (takes : TakesInput sspi) (net : Asio) (laws : IsDocumented net) (api : CertApi World)
    (ctx : Context) (layer : NextLayer World) (stream : IsStream layer)
    (dry : RunsDry sspi measure layer) where
  -- How many iterations a session has left at most.
  abbrev pub patience : Session World → ℕ
  patience s = 3 * measure.remaining s.world + held s.handshake + fed s.handshake

  read_uses :
      (s s' : Session World)
      → IsValid s.handshake
      → step sspi net true api ctx s ≡ some (HandshakeState.data_needed, s')
      → let r = layer.read_some s'.handshake.in_buffer.size s'.world in
        failed r.error ≡ false
        → patience (record s' {
          handshake =
              Handshake.size_read net (length r.bytes) (receive_handshake r.bytes s'.handshake);
          world = r.world;
        })
          < patience s
  unfolding Handshake.size_read
  read_uses s s' v stepped fine =
      let (none_held, room, less) = step_needs sspi measure net laws api ctx s s' v stepped in
      ground (arith, none_held, less, dry.reads s'.handshake.in_buffer.size s'.world room fine)

  write_uses :
      (s s' s'' : Session World) (n : ℕ)
      → step sspi net true api ctx s ≡ some (HandshakeState.data_available, s')
      → let r = layer.write (asio_buffer s'.handshake.out_buffer) s'.world in
        size_written sspi true n (record s' { world = r.world }) ≡ some s''
        → patience s'' < patience s
  unfolding size_written assign_temporary
  write_uses s s' s'' n stepped taken =
      let r = layer.write (asio_buffer s'.handshake.out_buffer) s'.world in
      let (sends, less) = step_sends sspi measure net laws api ctx s s' stepped in
      ground (
        arith,
        sends,
        less,
        dry.writes (asio_buffer s'.handshake.out_buffer) s'.world,
        measure.frees 0 r.world,
      )

  -- One iteration does not run out of fuel if those behind it do not.
  handle_state_ends :
      (rest : ErrorCode → Session World → Run (ErrorCode × Session World)) (ec : ErrorCode)
      (s s' : Session World) (state : HandshakeState)
      → IsValid s.handshake
      → step sspi net true api ctx s ≡ some (state, s')
      → ((ec' : ErrorCode) (t : Session World)
          → IsValid t.handshake
          → patience t < patience s
          → rest ec' t ≢ unfinished)
      → handle_state sspi net layer true api ctx rest ec state s' ≢ unfinished
  unfolding handle_state
  handle_state_ends rest ec s s' HandshakeState.done v stepped later e = cc
  handle_state_ends rest ec s s' HandshakeState.error v stepped later e = cc
  handle_state_ends rest ec s s' HandshakeState.data_needed v stepped later e =
      let r = layer.read_some s'.handshake.in_buffer.size s'.world in
      let within = stream.read_within s'.handshake.in_buffer.size s'.world in
      let valid =
        step-IsValid net laws sspi takes true api ctx s s' HandshakeState.data_needed v stepped in
      let t : Session World = record s' {
        handshake =
            Handshake.size_read net (length r.bytes) (receive_handshake r.bytes s'.handshake);
        world = r.world;
      } in
      elim (Bool-cases (failed r.error)) [
        | inl bad ↦ ground (arith, bad)
        | inr fine ↦
            later r.error t (read-IsValid net laws s'.handshake r.bytes valid within)
              (read_uses s s' v stepped fine) (ground (arith, fine))
      ]
  handle_state_ends rest ec s s' HandshakeState.data_available v stepped later e =
      let r = layer.write (asio_buffer s'.handshake.out_buffer) s'.world in
      let valid =
        step-IsValid net laws sspi takes true api ctx s s' HandshakeState.data_available v
          stepped in
      let t : Session World = record s' { world = r.world } in
      elim (Option-cases (size_written sspi true r.size t)) [
        | inl stopped ↦ ground (arith, stopped)
        | inr (s'', taken) ↦ elim (Bool-cases (failed r.error)) [
          | inl bad ↦ ground (arith, bad)
          | inr fine ↦
              later r.error s''
                (written-IsValid net laws sspi takes true api ctx r.size t s'' valid taken)
                (write_uses s s' s'' r.size stepped taken) (ground (arith, taken, fine))
        ]
      ]

  -- With assertions on, the blocking handshake never runs out of iterations if they are more than
  -- three times what is still to come from the peer, and one each for a token that is held and for
  -- input that waits: it returns, or an assertion stops the program. The received bytes are to fit
  -- the array. The package is to leave the size of its input, and never to report more bytes to
  -- spare than it was given, and every successful read of the next layer is to take something from
  -- what is still to come, to which nothing else adds.
  pub handshake_loop_ends :
      (fuel : ℕ) (ec : ErrorCode) (s : Session World)
      → IsValid s.handshake
      → patience s < fuel
      → handshake_loop sspi net layer true api ctx fuel ec s ≢ unfinished
  unfolding handshake_loop
  handshake_loop_ends zero ec s v enough e = omega arith
  handshake_loop_ends (suc fuel) ec s v enough e =
      elim (Option-cases (step sspi net true api ctx s)) [
        | inl stopped ↦ ground (arith, stopped)
        | inr (p, stepped) ↦
            handle_state_ends (handshake_loop sspi net layer true api ctx fuel) ec s p.1 p.0 v
              stepped (λ ec' t v' less. handshake_loop_ends fuel ec' t v' (omega arith))
              (ground (arith, stepped))
      ]
