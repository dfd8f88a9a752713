-- ===== src/Tests/Endings.antt =====
-- How handshakes end, at concrete inputs.
use boost_windows_tls.Common.{
  none, ltb, some, if◌then◌else◌, Option, length-append, ap, ◌<◌, Bytes, ◌≤◌, ℕ, ◌≡◌, ◌≢◌, refl,
  true, false, arith, List, length,
}
use boost_windows_tls.Windows.{
  sec_i_continue_needed, inside, secbuffer_token, sec_e_ok, sec_e_incomplete_message,
}
use boost_windows_tls.ErrorCode.{failed, ErrorCode, no_error}
use boost_windows_tls.Buffers.{sspi_buffer}
use boost_windows_tls.Asio.{concat, reference, reference-IsDocumented}
use boost_windows_tls.Context.{verify_certificate_chain, verify_certificate}
use boost_windows_tls.Handshake.{
  size_read, reset_input, conclude, Session, HandshakeType, client, server, step, digest,
  call_package, reuse_extra,
}
use boost_windows_tls.Handshake.Progress.{Measures}
use boost_windows_tls.Stream.{receive_handshake, handle_state, unfinished, finished, handshake_loop}
use boost_windows_tls.Stream.Succeeding.{Succeeds, handshake_loop-Succeeds}
use boost_windows_tls.Schannel.{Schannel, TokenInput}
use boost_windows_tls.Stream.Ending.{RunsDry, handshake_loop_ends}
use boost_windows_tls.Stream.Leftover.{
  Spares, moved, tokenless, handshake_loop-Spares, handshake_loop-tokenless,
}
use boost_windows_tls.Tests.Fixtures.{
  handle, read_brings, World, package_of, schannel, schannel-TakesInput, layer, layer-IsStream,
  certificates, read_chunk,
}
use boost_windows_tls.Tests.Protocol.{reads}
use boost_windows_tls.Tests.Handshaking.{outcome_of, verifying, received_of, one-IsValid}

same_incoming :
    (type : HandshakeType) (s : Session World)
    → length (concat (call_package schannel type s).world.incoming)
      ≤ length (concat s.world.incoming)
unfolding call_package
same_incoming client s = omega arith
same_incoming server s = omega arith

abbrev schannel-Measures : Measures schannel
schannel-Measures = record {
  remaining = λ w. length (concat w.incoming);
  calls = same_incoming;
  frees = λ a w. omega arith;
}

brings :
    (n : ℕ) (cs : List Bytes) (w : World)
    → failed (read_chunk n cs w).error ≡ false
    → length (concat (read_chunk n cs w).world.incoming) < length (concat cs)
brings n cs w h =
    let r = read_chunk n cs w in
    omega (
      arith,
      ap length (reads n cs w h),
      length-append r.bytes (concat r.world.incoming),
      read_brings n cs w h,
    )

layer-RunsDry : RunsDry schannel schannel-Measures layer
layer-RunsDry = record {
  reads = λ n w room h. brings n w.incoming w h;
  writes = λ bs w. omega arith;
}

-- One byte has been received and two are still to come.
handshake_loop_ends_example :
    handshake_loop schannel reference layer true certificates verifying 8 no_error (received_of 1)
    ≢ unfinished
handshake_loop_ends_example =
    handshake_loop_ends schannel schannel-Measures (schannel-TakesInput false) reference
      reference-IsDocumented certificates verifying layer layer-IsStream layer-RunsDry 8 no_error
      (received_of 1) one-IsValid (omega arith)

-- Of four bytes the package uses three to finish.
four-Spares : Spares schannel (received_of 4)
unfolding call_package
four-Spares = record {
  goes_on = refl;
  nothing_held = refl;
  has_input = omega arith;
  finishes = refl;
  extra = refl;
  room = omega arith;
}

-- The session in which the spare byte is at the front, and the one behind a read.
abbrev spare : Session World
spare = moved schannel reference reference-IsDocumented true layer (received_of 4)

abbrev behind_read : Session World
behind_read =
    let r = layer.read_some spare.handshake.in_buffer.size spare.world in
    record spare {
      handshake = size_read reference (length r.bytes) (receive_handshake r.bytes spare.handshake);
      world = r.world;
    }

handshake_loop-Spares_example :
    handshake_loop schannel reference layer true certificates verifying 3 no_error (received_of 4)
    ≡ finished (no_error, behind_read)
unfolding call_package reuse_extra
handshake_loop-Spares_example =
    handshake_loop-Spares schannel reference reference-IsDocumented true layer (received_of 4) 1
      certificates verifying no_error four-Spares refl

handshake_loop-tokenless_example :
    handshake_loop
      (tokenless (package_of true))
      reference
      layer
      true
      certificates
      verifying
      4
      no_error
      (received_of 4)
    ≡ handshake_loop
        (package_of true)
        reference
        layer
        true
        certificates
        verifying
        4
        no_error
        (received_of 4)
handshake_loop-tokenless_example =
    handshake_loop-tokenless (package_of true) reference true layer certificates verifying 4
      no_error (received_of 4)

abbrev sized : Option TokenInput → ℕ
sized none = 0
sized (some input) = input.buffers.b0.cb_buffer

-- A package that takes all input and finishes without a token.
abbrev strict : Schannel World
strict = record schannel {
  initialize_security_context = λ args w. record {
    status = if ltb (sized args.input) 3 then sec_e_incomplete_message else sec_e_ok;
    new_context = handle;
    input = record {
      b0 = record {
        cb_buffer = sized args.input;
        buffer_type = secbuffer_token;
        pv_buffer = inside 0;
      };
      b1 = sspi_buffer 0;
    };
    output = sspi_buffer secbuffer_token;
    world = w;
  };
  accept_security_context = λ args w. record {
    status = sec_i_continue_needed;
    new_context = handle;
    input = args.input.buffers;
    output = sspi_buffer secbuffer_token;
    world = w;
  };
}

abbrev verified_run : ErrorCode × Session World
verified_run =
    outcome_of (received_of 1)
      (handshake_loop strict reference layer true certificates verifying 4 no_error (received_of 1))

handshake_loop-Succeeds_example :
    Succeeds strict reference layer true certificates verifying (received_of 1) verified_run.1
unfolding handshake_loop handle_state step digest conclude verify_certificate
    verify_certificate_chain call_package reset_input size_read
handshake_loop-Succeeds_example =
    handshake_loop-Succeeds strict reference layer true certificates verifying refl 4 no_error
      (received_of 1) verified_run (omega arith) refl refl
