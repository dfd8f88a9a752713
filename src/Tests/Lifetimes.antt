-- ===== src/Tests/Lifetimes.antt =====
-- A stream from its constructor to its destructor, at a concrete input.
use boost_windows_tls.Common.{ℕ, ◌+◌, ◌-◌, ◌≡◌, refl, true, arith, Option, none, some, [], ◌∷◌}
use boost_windows_tls.Windows.{sec_e_ok, sec_i_continue_needed, secbuffer_token}
use boost_windows_tls.ErrorCode.{no_error}
use boost_windows_tls.Asio.{reference}
use boost_windows_tls.Buffers.{sspi_buffer}
use boost_windows_tls.Schannel.{Handle, Schannel, ContextResult}
use boost_windows_tls.Flags.{system_default}
use boost_windows_tls.Context.{Context, verify_certificate, verify_certificate_chain}
use boost_windows_tls.Handshake.{
  client, step, digest, conclude, call_package, reset_input, start, size_written, new_handshake,
  size_read,
}
use boost_windows_tls.ContextBuffer.{assign_temporary}
use boost_windows_tls.Stream.{
  Run, finished, aborted, unfinished, handshake_loop, handle_state, new_stream,
}
use boost_windows_tls.Stream
use boost_windows_tls.Connection.{Platform, TlsStream, Completion, construct, handshake, destruct}
use boost_windows_tls.Connection.Holdings.{Holdings}
use boost_windows_tls.Connection.Lifetime.{destruct_releases}
use boost_windows_tls.Tests.Fixtures.{handle, token}

-- How many contexts and credentials there are.
record Counts : Type 0 where
  contexts : ℕ
  credentials : ℕ

-- The first call makes a context, the next one ends the handshake.
abbrev establish : Option Handle → Counts → ContextResult Counts
establish none w = record {
  status = sec_i_continue_needed;
  new_context = handle;
  input = record { b0 = sspi_buffer 0; b1 = sspi_buffer 0 };
  output = token;
  world = record w { contexts = w.contexts + 1 };
}
establish (some h) w = record {
  status = sec_e_ok;
  new_context = h;
  input = record { b0 = sspi_buffer 0; b1 = sspi_buffer 0 };
  output = sspi_buffer secbuffer_token;
  world = w;
}

abbrev counting : Schannel Counts
counting = record {
  acquire_credentials_handle = λ c w. record {
    status = sec_e_ok;
    credential = handle;
    world = record w { credentials = w.credentials + 1 };
  };
  initialize_security_context = λ args w. establish args.existing w;
  accept_security_context = λ args w. establish args.existing w;
  decrypt_message = λ h s a w. record { status = sec_e_ok; buffers = s; memory = a; world = w };
  encrypt_message = λ h s a w. record { status = sec_e_ok; buffers = s; memory = a; world = w };
  query_stream_sizes = λ h w. record {
    status = sec_e_ok;
    value = record { cb_header = 1; cb_trailer = 2; cb_maximum_message = 4 };
    world = w;
  };
  query_remote_cert = λ h w. record { status = sec_e_ok; value = 9; world = w };
  apply_control_token = λ h b w. (sec_e_ok, w);
  free_context_buffer = λ a w. w;
  delete_security_context = λ h w. record w { contexts = w.contexts - 1 };
  free_credentials_handle = λ h w. record w { credentials = w.credentials - 1 };
}

abbrev platform : Platform Counts
platform = record {
  sspi = counting;
  asio = reference;
  layer = record {
    read_some = λ n w. record { error = no_error; bytes = 1 ∷ 2 ∷ 3 ∷ []; world = w };
    write = λ bs w. record { error = no_error; size = 2; world = w };
  };
  certs = record {
    open_store = λ w. (3, w);
    close_store = λ s w. w;
    add_certificate = λ s c w. (true, w);
    last_error = λ w. 6;
    create_chain_engine = λ s w. (true, 4, w);
    free_chain_engine = λ e w. w;
    get_chain = λ e c w. (true, c + e, w);
    free_chain = λ c w. w;
    verify_policy = λ c w. (true, 0, w);
    duplicate = λ c w. (c, w);
    free_certificate = λ c w. w;
  };
  debug = true;
}

platform-Holdings : Holdings platform
platform-Holdings = record {
  contexts = λ w. w.contexts;
  credentials = λ w. w.credentials;
  acquire = λ c w. (refl, refl);
  initialize_first = λ a w e. rw e (refl, refl);
  initialize_next = λ a h w e. rw e (ground arith, refl);
  accept_first = λ a w e. rw e (refl, refl);
  accept_next = λ a h w e. rw e (refl, refl, refl);
  query = λ h w. (refl, refl);
  free_buffer = λ a w. (refl, refl);
  delete = λ h w. (refl, refl);
  free_credentials = λ h w. (refl, refl);
  read = λ n w. (refl, refl);
  write = λ bs w. (refl, refl);
  create_engine = λ s w. (refl, refl);
  free_engine = λ e w. (refl, refl);
  get_chain = λ e c w. (refl, refl);
  free_chain = λ c w. (refl, refl);
  policy = λ c w. (refl, refl);
  free_certificate = λ c w. (refl, refl);
}

abbrev trusting : Context
trusting = record {
  ctx_certs = record { cert_store = 0; use_default_cert_store = true; server_cert = 0 };
  method = system_default;
  verify_server = true;
}

abbrev five_held : Counts
five_held = record { contexts = 5; credentials = 5 }

abbrev completed : Run (Completion Counts) → TlsStream Counts → Completion Counts
completed (finished out) t = out
completed aborted t = record { error = no_error; count = 0; delivered = []; stream = t }
completed unfinished t = record { error = no_error; count = 0; delivered = []; stream = t }

abbrev connected : Completion Counts
connected =
    let t = construct (λ i. 0) (λ i. 0) (λ i. 0) five_held in
    completed (handshake platform trusting 4 client no_error t) t

-- It did make a context and credentials.
connected_holds : connected.stream.world ≡ record { contexts = 6; credentials = 6 }
unfolding handshake construct new_stream Stream.handshake handshake_loop handle_state step start
    call_package digest conclude reset_input assign_temporary size_written new_handshake size_read
    verify_certificate verify_certificate_chain
connected_holds = refl

destruct_releases_example :
    (platform-Holdings.contexts (destruct platform connected.stream) ≡ 5)
    × (platform-Holdings.credentials (destruct platform connected.stream) ≡ 5)
unfolding platform-Holdings handshake construct new_stream Stream.handshake handshake_loop
    handle_state step start call_package digest conclude reset_input assign_temporary size_written
    new_handshake size_read verify_certificate verify_certificate_chain
destruct_releases_example =
    destruct_releases platform platform-Holdings trusting (λ i. 0) (λ i. 0) (λ i. 0) 4 client
      no_error five_held connected refl
