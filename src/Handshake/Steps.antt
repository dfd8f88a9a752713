-- ===== src/Handshake/Steps.antt =====
-- What one call of the handshake machine keeps, and when it may answer `done`.
use boost_windows_tls.Common.{
  inr, inl, slice-drop, ap, Array, sym, ◌∙◌, Bool-cases, ap₂, slice-memmove, ℕ, ◌+◌, ◌-◌, ◌≤◌, ◌≡◌,
  refl, arith, Bool, true, ◌==◌, if◌then◌else◌, some, [], Bytes, slice, drop,
}
use boost_windows_tls.Windows.{sec_e_ok, sec_e_incomplete_message, secbuffer_extra}
use boost_windows_tls.Asio.{buffer, Asio, IsDocumented}
use boost_windows_tls.Schannel.{Schannel, ContextResult}
use boost_windows_tls.Context.{CertApi, Context, verify_certificate}
use boost_windows_tls.Handshake.{
  Sequence2, SspiHandshake, Session, HandshakeType, HandshakeState, done, input_size, call_package,
  digest, step, conclude, reuse_extra, reset_input, called,
}

-- The bytes that wait for the security package.
abbrev pub received : SspiHandshake → Bytes
received h = slice h.input_data 0 h.input_buffers.b0.cb_buffer

-- The received bytes fit the array, and the next read goes right behind them.
pub record IsValid (h : SspiHandshake) : Type 0 where
  pub fits : h.input_buffers.b0.cb_buffer ≤ input_size
  pub at_end : h.in_buffer.offset ≡ h.input_buffers.b0.cb_buffer
  pub room : h.in_buffer.size ≡ input_size - h.input_buffers.b0.cb_buffer

-- A handshake call leaves the size of the first input buffer, and a second one of type
-- SECBUFFER_EXTRA has no more bytes to spare than were given, as documented. Any other type, such as
-- SECBUFFER_MISSING, may have any size.
pub record TakesInput {World : Type 0} (sspi : Schannel World) : Type 0 where
  pub same_size :
      (type : HandshakeType) (s : Session World)
      → (call_package sspi type s).input.b0.cb_buffer ≡ s.handshake.input_buffers.b0.cb_buffer
  pub extra_within :
      (type : HandshakeType) (s : Session World)
      → (call_package sspi type s).input.b1.buffer_type ≡ secbuffer_extra
      → (call_package sspi type s).input.b1.cb_buffer ≤ s.handshake.input_buffers.b0.cb_buffer

-- What is left of the input after a call.
abbrev pub unused : {World : Type 0} → ContextResult World → SspiHandshake → Bytes
unused r h =
    if r.input.b1.buffer_type == secbuffer_extra
    then drop (h.input_buffers.b0.cb_buffer - r.input.b1.cb_buffer) (received h)
    else (if r.status == sec_e_incomplete_message then received h else [])

module _ (net : Asio) (laws : IsDocumented net) where
  reuse_extra-IsValid :
      (h : SspiHandshake) → h.input_buffers.b1.cb_buffer ≤ input_size → IsValid (reuse_extra net h)
  unfolding reuse_extra
  reuse_extra-IsValid h fits =
      ground (arith, laws.advance_lem (buffer input_size) h.input_buffers.b1.cb_buffer)

  reuse_extra-received :
      (h : SspiHandshake)
      → h.input_buffers.b1.cb_buffer ≤ h.input_buffers.b0.cb_buffer
      → received (reuse_extra net h)
        ≡ drop (h.input_buffers.b0.cb_buffer - h.input_buffers.b1.cb_buffer) (received h)
  unfolding reuse_extra
  reuse_extra-received h le =
      let p = h.input_buffers.b0.cb_buffer in
      let x = h.input_buffers.b1.cb_buffer in
      let all : p ≡ p - x + x = omega arith in
      let z : 0 + (p - x) ≡ p - x = omega arith in
      slice-memmove h.input_data 0 (p - x) x
      ∙ sym (
          ap (λ n. drop (p - x) (slice h.input_data 0 n)) all
          ∙ slice-drop h.input_data 0 x (p - x)
          ∙ ap (λ n. slice h.input_data n x) z)

reset_input-IsValid : (h : SspiHandshake) → IsValid (reset_input h)
unfolding reset_input
reset_input-IsValid h = ground arith

reset_input-received : (h : SspiHandshake) → received (reset_input h) ≡ []
unfolding reset_input
reset_input-received h = refl

-- The three fields of the input.
abbrev SameInput : SspiHandshake → SspiHandshake → Type 0
SameInput h' h =
    (h'.input_buffers ≡ h.input_buffers)
    × (h'.in_buffer ≡ h.in_buffer)
    × (h'.input_data ≡ h.input_data)

SameInput-IsValid : (h' h : SspiHandshake) → SameInput h' h → IsValid h → IsValid h'
SameInput-IsValid h' h same v = ground arith

SameInput-received : (h' h : SspiHandshake) → SameInput h' h → received h' ≡ received h
SameInput-received h' h same =
    ap₂ (λ (s : Sequence2) (a : Array). slice a 0 s.b0.cb_buffer) same.0 same.2

module _ {World : Type 0} (sspi : Schannel World) (net : Asio) (debug : Bool) (api : CertApi World)
    (ctx : Context) where
  conclude_same :
      (status : ℕ) (s s' : Session World) (state : HandshakeState)
      → conclude sspi net debug api ctx status s ≡ some (state, s')
      → SameInput s'.handshake s.handshake
  unfolding conclude
  conclude_same status s s' state e = ground arith

  -- If one call of the machine answers `done` in a context that verifies, then in that call the
  -- package has finished and reported a certificate for the connection, that certificate was
  -- accepted, and the world is the one after its release.
  pub step_done_verified :
      (s s' : Session World)
      → ctx.verify_server ≡ true
      → step sspi net debug api ctx s ≡ some (done, s')
      → let r = call_package sspi s.handshake.handshake_type s in
        let q = sspi.query_remote_cert s'.ctxt_handle r.world in
        let checked = verify_certificate api q.value ctx q.world in
        (r.status ≡ sec_e_ok)
        × (q.status ≡ sec_e_ok)
        × (checked.0 ≡ sec_e_ok)
        × (s'.world ≡ api.free_certificate q.value checked.1)
  unfolding step digest conclude
  step_done_verified s s' on e = ground arith

module _ {World : Type 0} (sspi : Schannel World) (net : Asio) (laws : IsDocumented net)
    (debug : Bool) (api : CertApi World) (ctx : Context) where
  -- Whatever the package answers, the machine keeps exactly the bytes that it has not used, at the
  -- front of the array, and the next read goes right behind them: the spare bytes if it reports
  -- any, all of them if the message is incomplete, and none otherwise. The received bytes are to
  -- fit the array before, and the package is to leave the size of its input, and never to report
  -- more bytes to spare than it was given.
  pub digest_input :
      (s s' : Session World) (state : HandshakeState)
      → TakesInput sspi
      → IsValid s.handshake
      → let r = call_package sspi s.handshake.handshake_type s in
        digest sspi net debug api ctx r s ≡ some (state, s')
        → IsValid s'.handshake × (received s'.handshake ≡ unused r s.handshake)
  unfolding digest
  digest_input s s' state takes v e =
      let r = call_package sspi s.handshake.handshake_type s in
      let h = (called sspi r s).handshake in
      let n = takes.same_size s.handshake.handshake_type s in
      elim (Bool-cases (r.input.b1.buffer_type == secbuffer_extra)) [
        | inl extra ↦
            let x = takes.extra_within s.handshake.handshake_type s (ground (arith, extra)) in
            let same : SameInput s'.handshake (reuse_extra net h) = ground arith in
            (
              SameInput-IsValid s'.handshake (reuse_extra net h) same
                  (reuse_extra-IsValid net laws h (omega (arith, n, x, v.fits))),
              SameInput-received s'.handshake (reuse_extra net h) same
                  ∙ reuse_extra-received net laws h (omega (arith, n, x))
                  ∙ rw (n, extra),
            )
        | inr none_left ↦ elim (Bool-cases (r.status == sec_e_incomplete_message)) [
          | inl more ↦
              let same : SameInput s'.handshake h = ground arith in
              (
                SameInput-IsValid s'.handshake h same (ground (arith, n)),
                SameInput-received s'.handshake h same
                    ∙ rw (none_left, more) (ap (slice s.handshake.input_data 0) n),
              )
          | inr whole ↦
              let s₁ = called sspi r s in
              let fresh : Session World = record s₁ { handshake = reset_input s₁.handshake } in
              let same : SameInput s'.handshake (reset_input h) =
                ground (arith, conclude_same sspi net debug api ctx r.status fresh s' state) in
              (
                SameInput-IsValid s'.handshake (reset_input h) same (reset_input-IsValid h),
                SameInput-received s'.handshake (reset_input h) same
                    ∙ rw (none_left, whole) (reset_input-received h),
              )
        ]
      ]
