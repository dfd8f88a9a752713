-- ===== src/Connection/Lifetime.antt =====
-- detail/sspi_sec_handle.hpp and detail/sspi_stream.hpp: the handles of a stream from its constructor
-- to its destructor.
use boost_windows_tls.Common.{
  ℕ, ◌+◌, ◌≡◌, refl, false, if◌then◌else◌, arith, Bool-cases, inl, inr, ap, none, some, Array,
}
use boost_windows_tls.ErrorCode.{ErrorCode}
use boost_windows_tls.Schannel.{is_set, InitializeArgs, AcceptArgs}
use boost_windows_tls.Context.{Context, verify_certificate}
use boost_windows_tls.Handshake.{credentials as credentials_of}
use boost_windows_tls.Flags.{client_context_flags, server_context_flags}
use boost_windows_tls.Buffers.{SspiBuffer, handshake_output_buffers}
use boost_windows_tls.ContextBuffer.{asio_buffer, assign_temporary, destroy}
use boost_windows_tls.Handshake.{
  cleared, stored_context, HandshakeType, client, server, HandshakeState, Session, start, step,
  size_written, call_package, digest, conclude, verify_peer, reset_input, called, hold_token,
}
use boost_windows_tls.Handshake.Cases.{digest_cases}
use boost_windows_tls.Stream.{Run, aborted, unfinished, new_stream, finished, handshake_loop}
use boost_windows_tls.Stream
use boost_windows_tls.Stream.Invariants.{Kept, handshake_loop_inv}
use boost_windows_tls.Connection.Holdings.{Holdings, one, verify-Same}
use boost_windows_tls.Connection.{
  run_map_ends, Platform, session_of, after_handshake, TlsStream, Completion, construct, handshake,
  destruct,
}

module _ {World : Type 0} (p : Platform World) (holdings : Holdings p) where
  open holdings use {contexts, credentials}

  -- Beside the contexts and credentials held before there are those that the session's handles name.
  abbrev Counted : ℕ → ℕ → Session World → Type 0
  Counted c k s =
      (contexts s.world ≡ c + one s.ctxt_handle) × (credentials s.world ≡ k + one s.cred_handle)

  abbrev client_args : Session World → InitializeArgs
  client_args s = record {
    credential = s.cred_handle;
    existing = some s.ctxt_handle;
    target_name = s.handshake.server_hostname;
    context_req = client_context_flags;
    input =
        some
          (record { buffers = cleared s.handshake.input_buffers; memory = s.handshake.input_data });
    output = handshake_output_buffers;
  }

  abbrev server_args : Session World → AcceptArgs
  server_args s = record {
    credential = s.cred_handle;
    existing = if is_set s.ctxt_handle then some s.ctxt_handle else none;
    context_req = server_context_flags;
    input = record { buffers = cleared s.handshake.input_buffers; memory = s.handshake.input_data };
    output = handshake_output_buffers;
  }

  start-Counted :
      (ctx : Context) (type : HandshakeType) (s : Session World)
      → is_set s.ctxt_handle ≡ false
      → Counted (contexts s.world) (credentials s.world) (start p.sspi ctx type s)
  unfolding start assign_temporary
  start-Counted ctx client s fresh =
      let r = p.sspi.acquire_credentials_handle (credentials_of client ctx) s.world in
      let args : InitializeArgs = record {
        credential = r.credential;
        existing = none;
        target_name = s.handshake.server_hostname;
        context_req = client_context_flags;
        input = none;
        output = handshake_output_buffers;
      } in
      ground (
        arith,
        fresh,
        holdings.acquire (credentials_of client ctx) s.world,
        holdings.initialize_first args r.world refl,
        holdings.free_buffer 0 (p.sspi.initialize_security_context args r.world).world,
      )
  start-Counted ctx server s fresh =
      ground (arith, fresh, holdings.acquire (credentials_of server ctx) s.world)

  -- The call of the package keeps the count, with the handle that the session then has.
  called-Counted :
      (c k : ℕ) (type : HandshakeType) (s : Session World)
      → Counted c k s
      → let r = call_package p.sspi type s in
        (contexts r.world ≡ c + one (stored_context p.sspi type s r))
        × (credentials r.world ≡ k + one s.cred_handle)
  unfolding call_package
  called-Counted c k client s v =
      ground (arith, holdings.initialize_next (client_args s) s.ctxt_handle s.world refl)
  called-Counted c k server s v = elim (Bool-cases (is_set s.ctxt_handle)) [
    | inl set ↦
        ground (arith, set, holdings.accept_next (server_args s) s.ctxt_handle s.world (rw set))
    | inr unset ↦ ground (arith, unset, holdings.accept_first (server_args s) s.world (rw unset))
  ]

  verify_peer-Counted :
      (ctx : Context) (c k : ℕ) (s : Session World)
      → Counted c k s
      → Counted c k (verify_peer p.sspi p.asio p.debug p.certs ctx s).1
  unfolding verify_peer
  verify_peer-Counted ctx c k s v =
      let q = p.sspi.query_remote_cert s.ctxt_handle s.world in
      let w = (verify_certificate p.certs q.value ctx q.world).1 in
      ground (
        arith,
        holdings.query s.ctxt_handle s.world,
        verify-Same p holdings q.value ctx q.world,
        holdings.free_certificate q.value w,
      )

  conclude-Counted :
      (ctx : Context) (c k status : ℕ) (s s' : Session World) (state : HandshakeState)
      → Counted c k s
      → conclude p.sspi p.asio p.debug p.certs ctx status s ≡ some (state, s')
      → Counted c k s'
  unfolding conclude
  conclude-Counted ctx c k status s s' state v e = ground (arith, verify_peer-Counted ctx c k s v)

  hold-Counted :
      (c k : ℕ) (b : SspiBuffer) (s : Session World)
      → Counted c k s
      → Counted c k (hold_token p.sspi b s)
  unfolding assign_temporary
  hold-Counted c k b s v = ground (arith, holdings.free_buffer 0 s.world)

  digest-Counted :
      (ctx : Context) (c k : ℕ) (s s' : Session World) (state : HandshakeState)
      → Counted c k s
      → let r = call_package p.sspi s.handshake.handshake_type s in
        digest p.sspi p.asio p.debug p.certs ctx r s ≡ some (state, s') → Counted c k s'
  digest-Counted ctx c k s s' state v e =
      let r = call_package p.sspi s.handshake.handshake_type s in
      let after : Counted c k (called p.sspi r s) =
        called-Counted c k s.handshake.handshake_type s v in
      let t = called p.sspi r s in
      let fresh : Session World = record t { handshake = reset_input t.handshake } in
      elim (digest_cases p.sspi p.asio p.debug p.certs ctx r s (state, s') e) [
        | inl moved ↦ rw (ap (λ a. a.1) moved) after
        | inr (inl waits) ↦ rw (ap (λ a. a.1) waits) after
        | inr (inr (inl sends)) ↦ rw (ap (λ a. a.1) sends) (hold-Counted c k r.output fresh after)
        | inr (inr (inr ends)) ↦ conclude-Counted ctx c k r.status fresh s' state after ends
      ]

  step-Counted :
      (ctx : Context) (c k : ℕ) (s s' : Session World) (state : HandshakeState)
      → Counted c k s
      → step p.sspi p.asio p.debug p.certs ctx s ≡ some (state, s')
      → Counted c k s'
  unfolding step
  step-Counted ctx c k s s' state v e = ground (arith, digest-Counted ctx c k s s' state v)

  taken-Counted :
      (c k n : ℕ) (s s' : Session World)
      → Counted c k s
      → size_written p.sspi p.debug n s ≡ some s'
      → Counted c k s'
  unfolding size_written assign_temporary
  taken-Counted c k n s s' v e = ground (arith, holdings.free_buffer 0 s.world)

  iteration-Kept :
      (ctx : Context) (c k : ℕ) → Kept p.sspi p.asio p.layer p.debug p.certs ctx (Counted c k)
  iteration-Kept ctx c k = record {
    stepped = step-Counted ctx c k;
    read_failed = λ s v. ground (arith, holdings.read s.handshake.in_buffer.size s.world);
    read = λ s v. ground (arith, holdings.read s.handshake.in_buffer.size s.world);
    sent = λ s v. ground (arith, holdings.write (asio_buffer s.handshake.out_buffer) s.world);
    taken = taken-Counted c k;
  }

  destruct-Counted :
      (c k : ℕ) (t : TlsStream World)
      → Counted c k (session_of t)
      → (contexts (destruct p t) ≡ c) × (credentials (destruct p t) ≡ k)
  unfolding destruct
  destruct-Counted c k t v =
      let st = t.sspi_stream in
      let w = p.sspi.free_context_buffer (destroy st.shutdown.buffer_) t.world in
      let w' = p.sspi.free_context_buffer (destroy st.handshake.out_buffer) w in
      ground (
        arith,
        holdings.free_buffer (destroy st.shutdown.buffer_) t.world,
        holdings.free_buffer (destroy st.handshake.out_buffer) w,
        holdings.free_credentials st.cred_handle w',
        holdings.delete st.ctxt_handle w',
        holdings.delete st.ctxt_handle (p.sspi.free_credentials_handle st.cred_handle w'),
      )

  -- Once a stream that was made and that has tried one blocking handshake is destroyed, the package
  -- holds as many security contexts and credentials for the program as before, however the
  -- handshake ended. Of a client's first call and a server's calls without a context the package is
  -- to make one context or give a null handle.
  pub destruct_releases :
      (ctx : Context) (input encrypted decrypted : Array) (fuel : ℕ) (type : HandshakeType)
      (ec : ErrorCode) (w : World) (out : Completion World)
      → handshake p ctx fuel type ec (construct input encrypted decrypted w) ≡ finished out
      → (contexts (destruct p out.stream) ≡ contexts w)
        × (credentials (destruct p out.stream) ≡ credentials w)
  unfolding handshake construct new_stream Stream.handshake
  destruct_releases ctx input encrypted decrypted fuel type ec w out e =
      let t = construct input encrypted decrypted w in
      let s = session_of t in
      let begun = start p.sspi ctx type s in
      let (done, ends, same) =
        run_map_ends (after_handshake t)
          (handshake_loop p.sspi p.asio p.layer p.debug p.certs ctx fuel ec begun) out e in
      rw same (
        destruct-Counted (contexts w) (credentials w) (after_handshake t done).stream (
          handshake_loop_inv p.sspi p.asio p.layer p.debug p.certs ctx
            (iteration-Kept ctx (contexts w) (credentials w)) fuel ec begun done
            (start-Counted ctx type s refl) ends))
