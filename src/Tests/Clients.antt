-- ===== src/Tests/Clients.antt =====
-- The clients of the examples at concrete inputs.
use boost_windows_tls.Async
use boost_windows_tls.Shutdown
use boost_windows_tls.Context
use boost_windows_tls.ContextBuffer
use boost_windows_tls.Stream
use boost_windows_tls.Handshake
use boost_windows_tls.Connection
use boost_windows_tls.Examples.HttpsClient
use boost_windows_tls.Examples.Url
use boost_windows_tls.Common.{
  ℕ, ◌≡◌, ◌⊎◌, refl, true, ltb, if◌then◌else◌, arith, Option, none, some, [], ◌∷◌, ◌++◌, Bytes,
  Array, length,
}
use boost_windows_tls.Windows.{
  inside, sec_e_ok, sec_i_continue_needed, sec_e_incomplete_message, secbuffer_token,
}
use boost_windows_tls.ErrorCode.{ErrorCode, no_error, foreign, returns}
use boost_windows_tls.Asio.{reference}
use boost_windows_tls.Buffers.{sspi_buffer}
use boost_windows_tls.Schannel.{Schannel, TokenInput, ContextResult, InitializeArgs}
use boost_windows_tls.Handshake.{HandshakeType, Session, client, server, call_package, has_token}
use boost_windows_tls.Stream.{Run, finished, aborted, unfinished}
use boost_windows_tls.Connection.{Platform, TlsStream, Completion, construct, session_of}
use boost_windows_tls.Connection.Verifying.{NeverAtOnce, Shaken}
use boost_windows_tls.Examples.Url.{scheme, slash, colon, Groups, regex_match, is_host, is_port}
use boost_windows_tls.Examples.Url.Matching.{Matches, regex_match_iff, regex_match-url}
use boost_windows_tls.Examples.HttpsClient.{Web, Exit, client_context, main}
use boost_windows_tls.Examples.HttpsClient.Verifying.{Answered, main-Answered}
use boost_windows_tls.Examples.Url.{Target}
use boost_windows_tls.Examples.AsyncHttpsClient
use boost_windows_tls.Examples.AsyncHttpsClient.{AsyncWeb, run}
use boost_windows_tls.Examples.AsyncHttpsClient.Order.{run_ends}
use boost_windows_tls.Examples.AsyncHttpsClient.Verifying.{writes-Shaken}
use boost_windows_tls.Tests.Fixtures.{
  layer-ClearsErrors, World, handle, schannel, layer, certificates, token,
}

abbrev sized : Option TokenInput → ℕ
sized none = 0
sized (some input) = input.buffers.b0.cb_buffer

-- A package that gives a token first, and then takes all input and finishes without a token.
abbrev start_or_go_on : InitializeArgs → World → ContextResult World
start_or_go_on args w = elim args.existing [
  | none ↦ record {
    status = sec_i_continue_needed;
    new_context = handle;
    input = record { b0 = sspi_buffer 0; b1 = sspi_buffer 0 };
    output = token;
    world = w;
  }
  | some h ↦ record {
    status = if ltb (sized args.input) 3 then sec_e_incomplete_message else sec_e_ok;
    new_context = h;
    input = record {
      b0 = record {
        cb_buffer = sized args.input;
        buffer_type = secbuffer_token;
        pv_buffer = inside 0;
      };
      b1 = sspi_buffer 0;
    };
    output = sspi_buffer secbuffer_token;
    world = w;
  }
]

abbrev pub careful : Schannel World
careful = record schannel {
  initialize_security_context = start_or_go_on;
  accept_security_context = λ args w. record {
    status = sec_i_continue_needed;
    new_context = handle;
    input = args.input.buffers;
    output = sspi_buffer secbuffer_token;
    world = w;
  };
}

pub careful-NeverAtOnce : NeverAtOnce careful
careful-NeverAtOnce = record { goes_on = λ a w fresh. rw fresh (ground arith) }

abbrev pub platform : Platform World
platform = record {
  sspi = careful;
  asio = reference;
  layer = layer;
  certs = certificates;
  debug = true;
}

abbrev pub zeros : Array
zeros i = 0

-- A connection on which the server answers the first token.
abbrev pub answering : TlsStream World
answering =
    construct zeros zeros zeros (record { freed = []; incoming = (1 ∷ 2 ∷ 3 ∷ []) ∷ []; sent = [] })

abbrev web : Web World
web = record {
  resolve = λ host port w. (returns (1 ∷ []), w);
  connect = λ results w. (returns tt, w);
  write = λ fuel host path t. finished (returns tt, t);
  read = λ fuel t. finished (returns (72 ∷ 73 ∷ []), t);
  mbstowcs = λ bs. (length bs, bs);
}

-- https://a:8/b
abbrev url : Bytes
url = scheme ++ (97 ∷ colon ∷ 56 ∷ slash ∷ 98 ∷ [])

regex_match_iff_example :
    ((g : Groups) → regex_match url ≡ some g → Matches url g)
    × ((g : Groups) → Matches url g → (g' : Groups) × (regex_match url ≡ some g'))
regex_match_iff_example = regex_match_iff url

regex_match-url_example :
    regex_match (scheme ++ (97 ∷ colon ∷ 56 ∷ slash ∷ 98 ∷ []))
    ≡ some (record { first = 97 ∷ []; second = 56 ∷ []; third = slash ∷ 98 ∷ [] })
regex_match-url_example =
    regex_match-url (97 ∷ []) (56 ∷ []) (slash ∷ 98 ∷ []) (λ e. cc) refl refl refl refl

-- The groups of a URL with neither port nor path.
bare_url :
    regex_match (scheme ++ (97 ∷ [])) ≡ some (record { first = 97 ∷ []; second = []; third = [] })
unfolding regex_match Url.strip Url.groups Url.span
bare_url = refl

-- No host.
no_host : regex_match (scheme ++ (slash ∷ [])) ≡ none
unfolding regex_match Url.strip Url.groups Url.span
no_host = refl

abbrev out_of : Run (Exit × TlsStream World) → Exit × TlsStream World
out_of (finished out) = out
out_of aborted = (record { printed = none; exit_code = 9; exception = none }, answering)
out_of unfinished = (record { printed = none; exit_code = 9; exception = none }, answering)

abbrev answered : Exit × TlsStream World
answered = out_of (main platform web 8 (url ∷ []) answering)

main-Answered_example :
    (u : Bytes) × (url ∷ [] ≡ u ∷ [])
    × Answered platform web 8 careful-NeverAtOnce u answering (72 ∷ 73 ∷ [])
unfolding main regex_match Url.strip Url.groups Url.span HttpsClient.conclude HttpsClient.fetch
    HttpsClient.connect Connection.set_server_hostname Handshake.set_server_hostname
    Connection.handshake Stream.handshake Stream.handshake_loop Handshake.step Handshake.start
    ContextBuffer.assign_temporary Stream.handle_state Handshake.size_written construct
    Stream.new_stream Handshake.new_handshake Handshake.size_read Handshake.digest call_package
    Handshake.conclude client_context Context.verify_server_certificate Context.verify_certificate
    Context.use_default_certificates Context.new_context Context.verify_certificate_chain
    HttpsClient.request Connection.shutdown Stream.shutdown Shutdown.start_shutdown
main-Answered_example =
    main-Answered platform web 8 careful-NeverAtOnce (url ∷ []) answering answered.1 answered.0
      (72 ∷ 73 ∷ []) refl refl

abbrev async_web : AsyncWeb World
async_web = record {
  async_resolve = λ host port w. (no_error, 1 ∷ [], w);
  async_connect = λ results w. (no_error, w);
  async_write = λ fuel host path t.
      finished (record { error = no_error; count = 40; delivered = []; stream = t });
  async_read = λ fuel t.
      finished (record { error = no_error; count = 2; delivered = 72 ∷ 73 ∷ []; stream = t });
  eof = record { value = 2; category = foreign 1 };
  mbstowcs = λ bs. (length bs, bs);
}

abbrev target : Target
target = record { host = 97 ∷ []; port = 56 ∷ []; path = slash ∷ [] }

abbrev at_phase : AsyncHttpsClient.Phase → TlsStream World → AsyncHttpsClient.Session World
at_phase phase t = record {
  stream = t;
  target = target;
  phase = phase;
  failures = [];
  printed = [];
}

abbrev session_behind : Run (AsyncHttpsClient.Session World) → AsyncHttpsClient.Session World
session_behind (finished s) = s
session_behind aborted = at_phase AsyncHttpsClient.over answering
session_behind unfinished = at_phase AsyncHttpsClient.over answering

abbrev session_of_option : Option (AsyncHttpsClient.Session World) → AsyncHttpsClient.Session World
session_of_option none = at_phase AsyncHttpsClient.over answering
session_of_option (some s) = s

abbrev begun : AsyncHttpsClient.Session World
begun = session_of_option (run platform async_web target answering)

abbrev six_on : AsyncHttpsClient.Session World
six_on = session_behind (AsyncHttpsClient.completions platform async_web 6 9 begun)

run_ends_example :
    (six_on.phase ≡ AsyncHttpsClient.over)
    × (((six_on.failures ≡ []) × ((response : Bytes) × (six_on.printed ≡ response ∷ [])))
        ⊎ ((failure : ErrorCode × AsyncHttpsClient.What) × (six_on.failures ≡ failure ∷ [])))
unfolding run Connection.set_server_hostname Handshake.set_server_hostname
    AsyncHttpsClient.completions AsyncHttpsClient.complete AsyncHttpsClient.on_resolve
    AsyncHttpsClient.on_connect Connection.async_handshake Async.Handshake.async_handshake
    Async.Handshake.run Async.Handshake.resume Async.Handshake.take_result Async.Handshake.reenter
    Async.Handshake.loop Handshake.step Handshake.start ContextBuffer.assign_temporary
    Async.Handshake.answer Async.Handshake.perform Handshake.size_written construct
    Stream.new_stream Handshake.new_handshake Handshake.size_read Handshake.digest call_package
    Handshake.conclude client_context Context.verify_server_certificate Context.verify_certificate
    Context.use_default_certificates Context.new_context Context.verify_certificate_chain
    AsyncHttpsClient.on_handshake AsyncHttpsClient.on_write AsyncHttpsClient.on_read
    Connection.async_shutdown Async.Shutdown.async_shutdown Async.Shutdown.run Async.Shutdown.resume
    Async.Shutdown.reenter Shutdown.start_shutdown
run_ends_example = run_ends platform async_web 9 target answering begun six_on refl refl

abbrev shaking : AsyncHttpsClient.Session World
shaking = at_phase AsyncHttpsClient.handshaking answering

abbrev shaken : AsyncHttpsClient.Session World
shaken = session_behind (AsyncHttpsClient.complete platform async_web 9 shaking)

writes-Shaken_example : Shaken platform client_context answering shaken.stream
unfolding run AsyncHttpsClient.complete Connection.async_handshake Async.Handshake.async_handshake
    Async.Handshake.run Async.Handshake.resume Async.Handshake.take_result Async.Handshake.reenter
    Async.Handshake.loop Handshake.step Handshake.start ContextBuffer.assign_temporary
    Async.Handshake.answer Async.Handshake.perform Handshake.size_written construct
    Stream.new_stream Handshake.new_handshake Handshake.size_read Handshake.digest call_package
    Handshake.conclude client_context Context.verify_server_certificate Context.verify_certificate
    Context.use_default_certificates Context.new_context Context.verify_certificate_chain
    AsyncHttpsClient.on_handshake
writes-Shaken_example =
    writes-Shaken platform careful-NeverAtOnce layer-ClearsErrors async_web 9 shaking shaken refl
      refl
