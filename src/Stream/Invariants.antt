-- ===== src/Stream/Invariants.antt =====
-- stream.hpp, `handshake`: the rule for what every iteration of its loop keeps.
use boost_windows_tls.Common.{
  Bool-cases, ℕ, zero, suc, ◌≡◌, arith, Bool, some, length, Option-cases, inl, inr,
}
use boost_windows_tls.ErrorCode.{failed, ErrorCode}
use boost_windows_tls.Asio.{Asio}
use boost_windows_tls.ContextBuffer.{asio_buffer}
use boost_windows_tls.Schannel.{Schannel}
use boost_windows_tls.Context.{CertApi, Context}
use boost_windows_tls.NextLayer.{NextLayer}
use boost_windows_tls.Handshake.{SspiHandshake, Session, HandshakeState, step, size_written}
use boost_windows_tls.Handshake
use boost_windows_tls.Stream.{Run, finished, receive_handshake, handle_state, handshake_loop}

module _ {World : Type 0} (sspi : Schannel World) (net : Asio) (layer : NextLayer World)
    (debug : Bool) (api : CertApi World) (ctx : Context) where
  -- A property that the four things keep which an iteration does: a call of the machine, a read with
  -- or without an error, a write, and dropping the token that was written.
  pub record Kept {ℓ} (P : Session World → Type ℓ) : Type ℓ where
    pub stepped :
        (s s' : Session World) (state : HandshakeState)
        → P s
        → step sspi net debug api ctx s ≡ some (state, s')
        → P s'
    pub read_failed :
        (s : Session World)
        → P s
        → let r = layer.read_some s.handshake.in_buffer.size s.world in
          P (record s { handshake = receive_handshake r.bytes s.handshake; world = r.world })
    pub read :
        (s : Session World)
        → P s
        → let r = layer.read_some s.handshake.in_buffer.size s.world in
          P (record s {
            handshake =
                Handshake.size_read net (length r.bytes) (receive_handshake r.bytes s.handshake);
            world = r.world;
          })
    pub sent :
        (s : Session World)
        → P s
        → P (record s { world = (layer.write (asio_buffer s.handshake.out_buffer) s.world).world })
    pub taken : (n : ℕ) (s s' : Session World) → P s → size_written sspi debug n s ≡ some s' → P s'

  module _ {ℓ} {P : Session World → Type ℓ} (kept : Kept P) where
    handle_state_keeps :
        (rest : ErrorCode → Session World → Run (ErrorCode × Session World)) (ec : ErrorCode)
        (state : HandshakeState) (s : Session World) (out : ErrorCode × Session World)
        → P s
        → ((ec' : ErrorCode) (s' : Session World) → P s' → rest ec' s' ≡ finished out → P out.1)
        → handle_state sspi net layer debug api ctx rest ec state s ≡ finished out
        → P out.1
    unfolding handle_state
    handle_state_keeps rest ec HandshakeState.done s out v later e =
        let same : out.1 ≡ s = ground arith in rw same v
    handle_state_keeps rest ec HandshakeState.error s out v later e =
        let same : out.1 ≡ s = ground arith in rw same v
    handle_state_keeps rest ec HandshakeState.data_needed s out v later e =
        let r = layer.read_some s.handshake.in_buffer.size s.world in
        let h = receive_handshake r.bytes s.handshake in
        elim (Bool-cases (failed r.error)) [
          | inl bad ↦
              let t : Session World = record s { handshake = h; world = r.world } in
              let same : out.1 ≡ t = ground (arith, bad) in rw same (kept.read_failed s v)
          | inr good ↦
              let t : Session World = record s {
                handshake = Handshake.size_read net (length r.bytes) h;
                world = r.world;
              } in
              later r.error t (kept.read s v) (ground (arith, good))
        ]
    handle_state_keeps rest ec HandshakeState.data_available s out v later e =
        let r = layer.write (asio_buffer s.handshake.out_buffer) s.world in
        let t : Session World = record s { world = r.world } in
        elim (Bool-cases (failed r.error)) [
          | inl bad ↦ let same : out.1 ≡ t = ground (arith, bad) in rw same (kept.sent s v)
          | inr good ↦ elim (Option-cases (size_written sspi debug r.size t)) [
            | inl stopped ↦ absurd (ground (arith, good, stopped))
            | inr (s', gone) ↦
                later r.error s' (kept.taken r.size t s' (kept.sent s v) gone)
                  (ground (arith, good, gone))
          ]
        ]

    -- What every iteration keeps holds of the session that the loop returns.
    pub handshake_loop_inv :
        (fuel : ℕ) (ec : ErrorCode) (s : Session World) (out : ErrorCode × Session World)
        → P s
        → handshake_loop sspi net layer debug api ctx fuel ec s ≡ finished out
        → P out.1
    unfolding handshake_loop
    handshake_loop_inv zero ec s out v e = absurd (ground arith)
    handshake_loop_inv (suc fuel) ec s out v e =
        elim (Option-cases (step sspi net debug api ctx s)) [
          | inl stopped ↦ absurd (ground (arith, stopped))
          | inr (p, stepped) ↦
              handle_state_keeps (handshake_loop sspi net layer debug api ctx fuel) ec p.0 p.1 out
                (kept.stepped s p.1 p.0 v stepped)
                (λ ec' s' v' e'. handshake_loop_inv fuel ec' s' out v' e') (ground (arith, stepped))
        ]
