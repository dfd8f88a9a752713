-- ===== src/Handshake/Cases.antt =====
-- detail/sspi_handshake.hpp: the branches behind a call of the package.
use boost_windows_tls.Common.{◌≡◌, ◌⊎◌, Bool, if◌then◌else◌, arith, Option, none, some, ltb, ◌==◌}
use boost_windows_tls.Windows.{aborts, sec_e_incomplete_message, secbuffer_extra}
use boost_windows_tls.Asio.{Asio}
use boost_windows_tls.Schannel.{Schannel, ContextResult}
use boost_windows_tls.Context.{CertApi, Context}
use boost_windows_tls.Handshake.{
  Session, HandshakeState, data_needed, data_available, has_token, hold_token, called, reuse_extra,
  reset_input, digest, conclude,
}

branches {ℓ} :
    {A : Type ℓ} (spare stop more stop' token : Bool) (moved kept held out : A) (rest : Option A)
    → (if spare
        then (if stop then none else some moved)
        else (if more
            then (if stop' then none else some kept)
            else (if token then some held else rest)))
      ≡ some out
    → (out ≡ moved) ⊎ (out ≡ kept) ⊎ (out ≡ held) ⊎ (rest ≡ some out)
branches spare stop more stop' token moved kept held out rest e = ground arith

module _ {World : Type 0} (sspi : Schannel World) (net : Asio) (debug : Bool) (api : CertApi World)
    (ctx : Context) where
  -- The spare input was moved, more input is awaited, a token is held, or the status decides.
  pub digest_cases :
      (r : ContextResult World) (s : Session World) (out : HandshakeState × Session World)
      → digest sspi net debug api ctx r s ≡ some out
      → let t = called sspi r s in
        let fresh = record t { handshake = reset_input t.handshake } in
        (out ≡ (data_needed, record t { handshake = reuse_extra net t.handshake }))
        ⊎ (out ≡ (data_needed, t))
        ⊎ (out ≡ (data_available, hold_token sspi r.output fresh))
        ⊎ (conclude sspi net debug api ctx r.status fresh ≡ some out)
  unfolding digest
  digest_cases r s out e =
      let t = called sspi r s in
      let fresh : Session World = record t { handshake = reset_input t.handshake } in
      let moved : Session World = record t { handshake = reuse_extra net t.handshake } in
      branches (r.input.b1.buffer_type == secbuffer_extra)
        (aborts debug (ltb 0 moved.handshake.in_buffer.size)) (r.status == sec_e_incomplete_message)
        (aborts debug (ltb 0 t.handshake.in_buffer.size)) (has_token r.output) (data_needed, moved)
        (data_needed, t) (data_available, hold_token sspi r.output fresh) out
        (conclude sspi net debug api ctx r.status fresh) e
