-- ===== src/Tests/Handshaking.antt =====
-- sspi_handshake, the blocking handshake and the asynchronous one at concrete inputs.
use boost_windows_tls.Common.{
  ℕ, suc, ◌-◌, ◌≡◌, refl, true, false, arith, none, some, [], ◌∷◌, store,
}
use boost_windows_tls.Windows.{inside, external, sec_e_ok, sec_i_continue_needed, secbuffer_token}
use boost_windows_tls.ErrorCode.{ErrorCode, no_error}
use boost_windows_tls.Asio.{reference, reference-IsDocumented}
use boost_windows_tls.Flags.{enabled_protocols, system_default}
use boost_windows_tls.Buffers.{sspi_buffer}
use boost_windows_tls.ContextBuffer.{assign_temporary, empty_buffer}
use boost_windows_tls.Schannel.{null_handle}
use boost_windows_tls.Context.{verify_certificate_chain, CertApi, Context, verify_certificate}
use boost_windows_tls.Handshake.{
  start, reset_input, reuse_extra, conclude, Answer, Session, HandshakeState, client, step,
  call_package, digest, size_written, size_read,
}
use boost_windows_tls.Handshake.Steps.{IsValid, received, unused, digest_input, step_done_verified}
use boost_windows_tls.Handshake.Tokens.{size_written_leaks}
use boost_windows_tls.Stream.{
  handle_state, Run, finished, aborted, unfinished, handshake, handshake_loop,
}
use boost_windows_tls.Stream.Finishing.{LastFlight, handshake_loop-LastFlight}
use boost_windows_tls.Stream.Bounds.{handshake_loop-IsValid}
use boost_windows_tls.Async.Handshake.{async_handshake}
use boost_windows_tls.Async.HandshakeLaws.{async_handshake_same}
use boost_windows_tls.Tests.Fixtures.{
  World, handle, package_of, schannel, schannel-TakesInput, schannel-FreeLog, layer, layer-IsStream,
  layer-ClearsErrors, certificates,
}

-- A context that verifies against the system's certificates.
abbrev pub verifying : Context
verifying = record {
  ctx_certs = record { cert_store = 0; use_default_cert_store = true; server_cert = 0 };
  method = system_default;
  verify_server = true;
}

-- A client that has sent its first token and received this many of the bytes 1 2 3 4.
abbrev pub received_of : ℕ → Session World
received_of n = record {
  handshake = record {
    last_error = sec_i_continue_needed;
    handshake_type = client;
    input_data = store (λ i. 0) 0 (1 ∷ 2 ∷ 3 ∷ 4 ∷ []);
    out_buffer = empty_buffer;
    in_buffer = record { offset = n; size = 65536 - n };
    input_buffers = record {
      b0 = record { cb_buffer = n; buffer_type = secbuffer_token; pv_buffer = inside 0 };
      b1 = sspi_buffer 0;
    };
    server_hostname = none;
  };
  ctxt_handle = handle;
  cred_handle = handle;
  world = record { freed = []; incoming = (2 ∷ []) ∷ (3 ∷ []) ∷ []; sent = [] };
}

three-IsValid : IsValid (received_of 3).handshake
three-IsValid = record { fits = omega arith; at_end = refl; room = refl }

pub one-IsValid : IsValid (received_of 1).handshake
one-IsValid = record { fits = omega arith; at_end = refl; room = refl }

four-IsValid : IsValid (received_of 4).handshake
four-IsValid = record { fits = omega arith; at_end = refl; room = refl }

-- The session of an answer, or the one given.
abbrev pub session_of : Session World → Answer World → Session World
session_of s none = s
session_of s (some (state, s')) = s'

abbrev pub outcome_of : Session World → Run (ErrorCode × Session World) → ErrorCode × Session World
outcome_of s (finished out) = out
outcome_of s aborted = (no_error, s)
outcome_of s unfinished = (no_error, s)

abbrev ended : Session World
ended =
    session_of (received_of 3) (step schannel reference true certificates verifying (received_of 3))

step_done_verified_example :
    let r = call_package schannel client (received_of 3) in
    let q = schannel.query_remote_cert ended.ctxt_handle r.world in
    let checked = verify_certificate certificates q.value verifying q.world in
    (r.status ≡ sec_e_ok)
    × (q.status ≡ sec_e_ok)
    × (checked.0 ≡ sec_e_ok)
    × (ended.world ≡ certificates.free_certificate q.value checked.1)
unfolding step digest conclude verify_certificate verify_certificate_chain call_package reset_input
step_done_verified_example =
    step_done_verified schannel reference true certificates verifying (received_of 3) ended refl
      refl

-- Of four bytes the package uses three.
abbrev spared : Session World
spared = session_of (received_of 4) (
    digest schannel reference true certificates verifying
      (call_package schannel client (received_of 4)) (received_of 4))

digest_input_example :
    IsValid spared.handshake
    × (received spared.handshake
        ≡ unused (call_package schannel client (received_of 4)) (received_of 4).handshake)
unfolding digest call_package reuse_extra
digest_input_example =
    digest_input schannel reference reference-IsDocumented true certificates verifying
      (received_of 4) spared HandshakeState.data_needed (schannel-TakesInput false) four-IsValid
      refl

received_spared : received spared.handshake ≡ 4 ∷ []
unfolding digest call_package reuse_extra
received_spared = refl

abbrev finished_run : ErrorCode × Session World
finished_run =
    outcome_of (received_of 1) (
      handshake_loop schannel reference layer true certificates verifying 4 no_error
        (received_of 1))

handshake_loop-IsValid_example : IsValid finished_run.1.handshake
unfolding handshake_loop handle_state step digest conclude verify_certificate
    verify_certificate_chain call_package reset_input size_read
handshake_loop-IsValid_example =
    handshake_loop-IsValid reference reference-IsDocumented schannel (schannel-TakesInput false)
      true certificates verifying layer layer-IsStream 4 no_error (received_of 1) finished_run
      one-IsValid refl

-- The package ends with a token, and a context that trusts nobody.
abbrev pub distrusting : CertApi World
distrusting = record certificates { verify_policy = λ c w. (true, 8, w) }

last-LastFlight : LastFlight (package_of true) (received_of 3)
unfolding call_package
last-LastFlight = record {
  goes_on = refl;
  nothing_held = refl;
  has_input = omega arith;
  finishes = refl;
  all_used = omega arith;
  token = refl;
}

handshake_loop-LastFlight_example :
    (s' : Session World) × ((fuel : ℕ) (api : CertApi World) (ctx : Context) (ec : ErrorCode)
      → handshake_loop
          (package_of true)
          reference
          layer
          true
          api
          ctx
          (suc (suc fuel))
          ec
          (received_of 3)
        ≡ finished (no_error, s'))
unfolding call_package assign_temporary
handshake_loop-LastFlight_example =
    handshake_loop-LastFlight (package_of true) reference true layer (received_of 3) last-LastFlight
      refl refl

-- Nobody trusts the certificate, and the handshake succeeds.
distrusted_succeeds :
    (outcome_of (received_of 3) (
      handshake_loop
        (package_of true)
        reference
        layer
        true
        distrusting
        verifying
        2
        no_error
        (received_of 3))).0
    ≡ no_error
unfolding handshake_loop handle_state step digest call_package reset_input assign_temporary
    size_written
distrusted_succeeds = refl

abbrev token_held : Session World
token_held =
    let s = received_of 3 in
    let h = s.handshake in
    record s {
      handshake = record h {
        out_buffer = record {
          data_ = external (record { address = 7; bytes = 21 ∷ 22 ∷ [] });
          size = 2;
        };
      };
    }

abbrev token_sent : Session World
token_sent =
    let s = received_of 3 in
    record s { world = record { freed = 0 ∷ []; incoming = (2 ∷ []) ∷ (3 ∷ []) ∷ []; sent = [] } }

size_written_leaks_example :
    (token_sent.handshake.out_buffer ≡ empty_buffer) × (token_sent.world.freed ≡ 0 ∷ [])
unfolding size_written assign_temporary
size_written_leaks_example =
    size_written_leaks schannel schannel-FreeLog true 2 token_held token_sent refl

-- A stream before its handshake, whose peer sends three bytes in two chunks.
abbrev unstarted : Session World
unstarted =
    let s = received_of 0 in
    record s {
      ctxt_handle = null_handle;
      world = record { freed = []; incoming = (1 ∷ []) ∷ (2 ∷ 3 ∷ []) ∷ []; sent = [] };
    }

abbrev handshaken : ErrorCode × Session World
handshaken =
    outcome_of unstarted
      (handshake schannel reference layer true certificates verifying 6 client no_error unstarted)

async_handshake_same_example :
    async_handshake schannel reference true certificates verifying layer 7 client unstarted
    ≡ finished handshaken
unfolding handshake start handshake_loop handle_state step digest conclude verify_certificate
    verify_certificate_chain call_package reset_input size_read assign_temporary size_written
    enabled_protocols
async_handshake_same_example =
    async_handshake_same schannel reference true certificates verifying layer layer-ClearsErrors 6
      client unstarted handshaken refl

handshaken_sends_token : handshaken.1.world.sent ≡ (21 ∷ 22 ∷ []) ∷ []
unfolding handshake start handshake_loop handle_state step digest conclude verify_certificate
    verify_certificate_chain call_package reset_input size_read assign_temporary size_written
    enabled_protocols
handshaken_sends_token = refl
