-- ===== src/Stream/Succeeding.antt =====
-- stream.hpp, `handshake`: what has happened when it reports success.
use boost_windows_tls.Common.{
  ℕ, zero, suc, ◌≡◌, ◌≢◌, length, ◌⊎◌, ◌∙◌, refl, inl, inr, arith, Bool, true, false, some,
  Bool-cases, Option-cases,
}
use boost_windows_tls.Windows.{sec_e_ok, secbuffer_extra}
use boost_windows_tls.ErrorCode.{ErrorCode, failed}
use boost_windows_tls.Asio.{Asio}
use boost_windows_tls.Schannel.{Schannel}
use boost_windows_tls.Context.{CertApi, Context, verify_certificate}
use boost_windows_tls.NextLayer.{NextLayer, WriteResult}
use boost_windows_tls.Handshake.{
  HandshakeType, SspiHandshake, Session, HandshakeState, step, digest, conclude, verify_peer,
  reset_input, reuse_extra, call_package, has_token, size_written,
}
use boost_windows_tls.Handshake
use boost_windows_tls.ContextBuffer.{asio_buffer}
use boost_windows_tls.Stream.Finishing.{second_step}
use boost_windows_tls.Handshake.Steps.{step_done_verified}
use boost_windows_tls.Stream.{Run, finished, receive_handshake, handle_state, handshake_loop}

module _ {World : Type 0} (sspi : Schannel World) (net : Asio) (layer : NextLayer World)
    (debug : Bool) (api : CertApi World) (ctx : Context) where
  -- The session behind a read, and the one that `size_written` gets.
  abbrev pub has_read : Session World → Session World
  has_read s =
      let r = layer.read_some s.handshake.in_buffer.size s.world in
      record s {
        handshake =
            Handshake.size_read net (length r.bytes) (receive_handshake r.bytes s.handshake);
        world = r.world;
      }

  abbrev pub written : Session World → WriteResult World
  written s = layer.write (asio_buffer s.handshake.out_buffer) s.world

  abbrev pub has_sent : Session World → Session World
  has_sent s = record s { world = (written s).world }

  -- An iteration of the loop that goes on to the next: one step of the machine, and the read or the
  -- write that it asks for.
  pub data Passes : Session World → Session World → Type 0 where
    reads :
        {s t : Session World}
        → (s' : Session World)
        → step sspi net debug api ctx s ≡ some (HandshakeState.data_needed, s')
        → failed (layer.read_some s'.handshake.in_buffer.size s'.world).error ≡ false
        → t ≡ has_read s'
        → Passes s t
    writes :
        {s t : Session World}
        → (s' : Session World)
        → step sspi net debug api ctx s ≡ some (HandshakeState.data_available, s')
        → failed (written s').error ≡ false
        → size_written sspi debug (written s').size (has_sent s') ≡ some t
        → Passes s t

  pub data Leads : Session World → Session World → Type 0 where
    here : {s t : Session World} → t ≡ s → Leads s t
    further : {s t u : Session World} → Passes s t → Leads t u → Leads s u

  -- The last iteration answers `done`, behind the acceptance of the certificate that the package
  -- reports for the connection once it has finished.
  abbrev pub Verified : Session World → Session World → Type 0
  Verified s out =
      (t : Session World) × Leads s t
      × (step sspi net debug api ctx t ≡ some (HandshakeState.done, out))
      × (let r = call_package sspi t.handshake.handshake_type t in
          let q = sspi.query_remote_cert out.ctxt_handle r.world in
          let checked = verify_certificate api q.value ctx q.world in
          (r.status ≡ sec_e_ok)
          × (q.status ≡ sec_e_ok)
          × (checked.0 ≡ sec_e_ok)
          × (out.world ≡ api.free_certificate q.value checked.1))

  -- The package finishes with a token to be sent or with input to spare, and the handshake ends behind
  -- the write or the read of that iteration.
  abbrev pub EndsUnverified : Session World → Session World → Type 0
  EndsUnverified s out =
      (t : Session World) × Leads s t
      × Passes t out
      × (let r = call_package sspi t.handshake.handshake_type t in
          (r.status ≡ sec_e_ok)
          × ((r.input.b1.buffer_type ≡ secbuffer_extra) ⊎ (has_token r.output ≡ true)))

  abbrev pub Succeeds : Session World → Session World → Type 0
  Succeeds s out = Verified s out ⊎ EndsUnverified s out

  Passes-Succeeds : (s t out : Session World) → Passes s t → Succeeds t out → Succeeds s out
  Passes-Succeeds s t out pass (inl (u, leads, stepped, ends)) =
      inl (u, further pass leads, stepped, ends)
  Passes-Succeeds s t out pass (inr (u, leads, pass', ends)) =
      inr (u, further pass leads, pass', ends)

module _ {World : Type 0} (sspi : Schannel World) (net : Asio) (layer : NextLayer World)
    (debug : Bool) (api : CertApi World) (ctx : Context) (verifies : ctx.verify_server ≡ true) where
  -- The package has finished, but not alone.
  abbrev NotAlone : Session World → Session World → Type 0
  NotAlone s s' =
      let r = call_package sspi s.handshake.handshake_type s in
      (s'.handshake.last_error ≡ sec_e_ok)
      × (r.status ≡ sec_e_ok)
      × ((r.input.b1.buffer_type ≡ secbuffer_extra) ⊎ (has_token r.output ≡ true))

  -- What one step leads to while the package has not finished.
  step_goes_on :
      (s s' : Session World) (state : HandshakeState)
      → s.handshake.last_error ≢ sec_e_ok
      → step sspi net debug api ctx s ≡ some (state, s')
      → (state ≡ HandshakeState.done)
        ⊎ ((s'.handshake.last_error ≢ sec_e_ok) ⊎ ((state ≢ HandshakeState.error) × NotAlone s s'))
  unfolding step digest conclude verify_peer reset_input reuse_extra
  step_goes_on s s' state going stepped = ground arith

  written_same :
      (n : ℕ) (s s' : Session World)
      → size_written sspi debug n s ≡ some s'
      → s'.handshake.last_error ≡ s.handshake.last_error
  unfolding size_written
  written_same n s s' e = ground arith

  -- The iteration behind the one in which the package finished ends the loop.
  ends_there :
      (fuel : ℕ) (ec : ErrorCode) (s : Session World) (out : ErrorCode × Session World)
      → s.handshake.last_error ≡ sec_e_ok
      → handshake_loop sspi net layer debug api ctx fuel ec s ≡ finished out
      → out.1 ≡ s
  unfolding handshake_loop handle_state
  ends_there zero ec s out ok e = ground arith
  ends_there (suc fuel) ec s out ok e =
      ground (arith, second_step sspi net debug layer api ctx s ok)

  module _ (rest : ErrorCode → Session World → Run (ErrorCode × Session World))
      (out : ErrorCode × Session World)
      (later : (ec : ErrorCode) (t : Session World)
        → t.handshake.last_error ≢ sec_e_ok
        → rest ec t ≡ finished out
        → Succeeds sspi net layer debug api ctx t out.1)
      (last : (ec : ErrorCode) (t : Session World)
        → t.handshake.last_error ≡ sec_e_ok
        → rest ec t ≡ finished out
        → out.1 ≡ t) where
    -- An iteration that goes on.
    pass-Succeeds :
        (ec : ErrorCode) (s s' t : Session World) (state : HandshakeState)
        → state ≢ HandshakeState.done
        → s.handshake.last_error ≢ sec_e_ok
        → step sspi net debug api ctx s ≡ some (state, s')
        → t.handshake.last_error ≡ s'.handshake.last_error
        → Passes sspi net layer debug api ctx s t
        → rest ec t ≡ finished out
        → Succeeds sspi net layer debug api ctx s out.1
    pass-Succeeds ec s s' t state not_done going stepped same pass e =
        elim (step_goes_on s s' state going stepped) [
          | inl is_done ↦ absurd (not_done is_done)
          | inr (inl still) ↦
              Passes-Succeeds sspi net layer debug api ctx s t out.1 pass
                (later ec t (ground (arith, same, still)) e)
          | inr (inr (not_error, (ok, finishes, how))) ↦
              let ended = last ec t (same ∙ ok) e in
              rw ended (inr (s, here refl, pass, (finishes, how)))
        ]

    handle_state-Succeeds :
        (ec : ErrorCode) (s s' : Session World) (state : HandshakeState)
        → s.handshake.last_error ≢ sec_e_ok
        → step sspi net debug api ctx s ≡ some (state, s')
        → handle_state sspi net layer debug api ctx rest ec state s' ≡ finished out
        → failed out.0 ≡ false
        → Succeeds sspi net layer debug api ctx s out.1
    unfolding handle_state Handshake.size_read
    handle_state-Succeeds ec s s' HandshakeState.done going stepped e fine =
        let same : out.1 ≡ s' = ground arith in
        rw same (
          inl (
            s,
            here refl,
            stepped,
            step_done_verified sspi net debug api ctx s s' verifies stepped,
          ))
    handle_state-Succeeds ec s s' HandshakeState.error going stepped e fine =
        absurd (ground (arith, step_goes_on s s' HandshakeState.error going stepped))
    handle_state-Succeeds ec s s' HandshakeState.data_needed going stepped e fine =
        let r = layer.read_some s'.handshake.in_buffer.size s'.world in
        elim (Bool-cases (failed r.error)) [
          | inl bad ↦ absurd (ground (arith, bad))
          | inr good ↦
              pass-Succeeds r.error s s' (has_read sspi net layer debug api ctx s')
                HandshakeState.data_needed (ground arith) going stepped refl
                (reads s' stepped good refl) (ground (arith, good))
        ]
    handle_state-Succeeds ec s s' HandshakeState.data_available going stepped e fine =
        let r = layer.write (asio_buffer s'.handshake.out_buffer) s'.world in
        let t = has_sent sspi net layer debug api ctx s' in
        elim (Option-cases (size_written sspi debug r.size t)) [
          | inl stopped ↦ absurd (ground (arith, stopped))
          | inr (s'', taken) ↦ elim (Bool-cases (failed r.error)) [
            | inl bad ↦ absurd (ground (arith, bad))
            | inr good ↦
                pass-Succeeds r.error s s' s'' HandshakeState.data_available (ground arith) going
                  stepped (written_same r.size t s'' taken) (writes s' stepped good taken)
                  (ground (arith, taken, good))
          ]
        ]

  -- With a context that verifies, a blocking handshake that had not finished before succeeds in two
  -- ways only. Either its last iteration answers `done`, behind the call in which the package
  -- finished: then the package reported a certificate for the connection, it was accepted, and the
  -- world in the end is the one after its verification and release. Or nothing was verified, and
  -- the handshake ends with the session behind an iteration in which the package finished with a
  -- token to be sent or with input to spare. The iterations lead from the session at the beginning
  -- to that one.
  pub handshake_loop-Succeeds :
      (fuel : ℕ) (ec : ErrorCode) (s : Session World) (out : ErrorCode × Session World)
      → s.handshake.last_error ≢ sec_e_ok
      → handshake_loop sspi net layer debug api ctx fuel ec s ≡ finished out
      → failed out.0 ≡ false
      → Succeeds sspi net layer debug api ctx s out.1
  unfolding handshake_loop
  handshake_loop-Succeeds zero ec s out going e fine = absurd (ground arith)
  handshake_loop-Succeeds (suc fuel) ec s out going e fine =
      elim (Option-cases (step sspi net debug api ctx s)) [
        | inl stopped ↦ absurd (ground (arith, stopped))
        | inr (p, stepped) ↦
            handle_state-Succeeds (handshake_loop sspi net layer debug api ctx fuel) out
              (λ ec' t going' e'. handshake_loop-Succeeds fuel ec' t out going' e' fine)
              (λ ec' t ok e'. ends_there fuel ec' t out ok e') ec s p.1 p.0 going stepped
              (ground (arith, stepped)) fine
      ]
