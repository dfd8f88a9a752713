-- ===== src/Tests/Servers.antt =====
-- The echo server and the echo client at concrete inputs.
use boost_windows_tls.Shutdown
use boost_windows_tls.ContextBuffer
use boost_windows_tls.Handshake
use boost_windows_tls.Certificate.Crypto
use boost_windows_tls.Certificate
use boost_windows_tls.Examples.EchoServer.Server
use boost_windows_tls.Examples.EchoServer
use boost_windows_tls.Stream
use boost_windows_tls.Decrypt
use boost_windows_tls.Async
use boost_windows_tls.Connection
use boost_windows_tls.Common.{
  ℕ, suc, ◌+◌, ◌-◌, ◌≡◌, ◌<◌, refl, true, ◌!=◌, arith, List, [], ◌∷◌, Bytes, length, if◌then◌else◌,
}
use boost_windows_tls.ErrorCode.{no_error}
use boost_windows_tls.Asio.{reference-IsDocumented}
use boost_windows_tls.Schannel.{CertContext}
use boost_windows_tls.Context.{Context, CertApi}
use boost_windows_tls.Context
use boost_windows_tls.Certificate.Crypto.{CryptApi, Call, returned, thrown, stopped}
use boost_windows_tls.Handshake.{client}
use boost_windows_tls.Stream.{Run, finished, aborted, unfinished}
use boost_windows_tls.Stream.Counting.{AlwaysHasData}
use boost_windows_tls.Connection.{TlsStream, Completion, construct, async_handshake}
use boost_windows_tls.Examples.EchoServer.{
  Session, reading, over, Turn, Serves, waits, completes, complete,
}
use boost_windows_tls.Examples.EchoServer.Echoing.{Echoes, Serves-Echoes}
use boost_windows_tls.Examples.EchoServer.Server.{Setting, serve}
use boost_windows_tls.Examples.EchoServer.Server.Releasing.{Copies, Holds, serve_releases}
use boost_windows_tls.Examples.HttpsClient.{client_context}
use boost_windows_tls.Examples.EchoClient.{Client, Net, new_client, trust, completions}
use boost_windows_tls.Examples.EchoClient
use boost_windows_tls.Examples.EchoClient.Replying.{TransfersAll, asked, reply_fits}
use boost_windows_tls.Examples.EchoClient.Trusting.{Founded, TrustsPeer, handshake_trusts}
use boost_windows_tls.Tests.Fixtures.{
  World, certificates, certificates-FailsWithCode, layer-ClearsErrors, layer-ReportsCleanly,
}
use boost_windows_tls.Tests.Clients.{platform, answering, zeros, careful, careful-NeverAtOnce}

careful-AlwaysHasData : AlwaysHasData careful
careful-AlwaysHasData = record { typed = λ h s a w e. ground arith }

-- A session that reads, to which a record of two bytes comes.
abbrev session : Session World
session = record {
  stream =
      construct zeros zeros zeros
        (record { freed = []; incoming = (2 ∷ 10 ∷ []) ∷ (11 ∷ []) ∷ []; sent = [] });
  data_ = zeros;
  phase = reading;
  reports = [];
}

abbrev write_all : ℕ → Bytes → TlsStream World → Run (Completion World)
write_all fuel bs t =
    finished (record { error = no_error; count = length bs; delivered = []; stream = t })

abbrev pub turn_of : Session World → Run (Turn World) → Turn World
turn_of s (finished t) = t
turn_of s aborted = record { bytes_in = []; bytes_out = []; session = s }
turn_of s unfinished = record { bytes_in = []; bytes_out = []; session = s }

abbrev has_come : Turn World
has_come = turn_of session (complete platform client_context write_all 6 session)

abbrev has_gone : Turn World
has_gone = turn_of session (complete platform client_context write_all 6 has_come.session)

served :
    Serves platform client_context write_all session (10 ∷ 11 ∷ []) (10 ∷ 11 ∷ []) has_gone.session
unfolding complete Connection.async_read_some Async.Read.async_read Async.Read.run Async.Read.resume
    Async.Read.reenter Async.Read.loop Decrypt.decrypt construct Stream.new_stream
    Decrypt.new_decrypt Async.Read.perform Async.Read.answer Decrypt.size_read Decrypt.deliver
    EchoServer.on_read Decrypt.keep_extra serve Server.set_up Certificate.x509_to_cert_context
    Crypto.crypt_string_to_binary Server.set_up_with Certificate.import_private_key_ec
    Certificate.import_private_key Crypto.crypt_decode_object_ex Certificate.import_into
    Certificate.assign_private_key Server.tear_down Certificate.delete_private_key_ec
    Certificate.delete_private_key Context.destruct Context.use_certificate Context.new_context
    trust Context.add_authority_or_throw Context.add_certificate_authority async_handshake
    Async.Handshake.async_handshake Async.Handshake.run Async.Handshake.resume
    Async.Handshake.take_result Async.Handshake.reenter Async.Handshake.loop Handshake.step
    Handshake.start ContextBuffer.assign_temporary Async.Handshake.answer Async.Handshake.perform
served =
    completes {ins' = []} {outs' = 10 ∷ 11 ∷ []} 6 has_come refl
      (completes {ins' = []} {outs' = []} 6 has_gone refl (waits refl refl refl) refl refl) refl
      refl

Serves-Echoes_example : Echoes session (10 ∷ 11 ∷ []) (10 ∷ 11 ∷ []) has_gone.session
Serves-Echoes_example =
    Serves-Echoes platform reference-IsDocumented careful-AlwaysHasData layer-ReportsCleanly
      client_context write_all session has_gone.session (10 ∷ 11 ∷ []) (10 ∷ 11 ∷ []) served

-- Functions on certificates and keys that always succeed, with the number of certificates as world.
abbrev crypt : {World : Type 0} → (World → World) → CryptApi World
crypt made = record {
  last_error = λ w. 6;
  binary_size = λ t w. (true, length t, w);
  to_binary = λ t n w. (true, t, w);
  decoded_size = λ d t w. (true, length t, w);
  decode = λ d t n w. (true, t, w);
  is_rsa = λ t. true;
  key_blob = λ t. t;
  create_certificate = λ bs w. (9, made w);
  acquire_context = λ name f w. (true, 2, w);
  release_context = λ c w. w;
  import_key = λ c k w. (true, 3, w);
  destroy_key = λ k w. w;
  set_key_container = λ c name w. (true, w);
}

abbrev counted : CertApi ℕ
counted = record {
  open_store = λ w. (3, w);
  close_store = λ s w. w;
  add_certificate = λ s c w. (true, w);
  last_error = λ w. 6;
  create_chain_engine = λ s w. (true, 4, w);
  free_chain_engine = λ e w. w;
  get_chain = λ e c w. (true, c + e, w);
  free_chain = λ c w. w;
  verify_policy = λ c w. (true, 0, w);
  duplicate = λ c w. (c, w + (if c != 0 then 1 else 0));
  free_certificate = λ c w. w - 1;
}

abbrev setting : Setting ℕ
setting = record {
  crypt = crypt suc;
  certs = counted;
  mbstowcs = λ bs. (length bs, bs);
  debug = true;
  x509_certificate = 1 ∷ [];
  rsa_key = 2 ∷ [];
  private_key_name_ = 3 ∷ [];
}

setting-Copies : Copies setting
setting-Copies = record {
  held = λ w. w;
  creates = λ bs w. omega arith;
  duplicates = λ c w. refl;
  frees = λ c w. refl;
  closes = λ s w. refl;
  binary_size_same = λ t w. refl;
  to_binary_same = λ t n w. refl;
  decoded_size_same = λ d t w. refl;
  decode_same = λ d t n w. refl;
  acquire_same = λ name f w. refl;
  release_same = λ c w. refl;
  import_same = λ c k w. refl;
  destroy_same = λ k w. refl;
  container_same = λ c name w. refl;
}

serve_releases_example :
    Holds setting setting-Copies 5
      (serve setting (λ port w. returned tt w) (λ ctx w. thrown no_error w) 80 5)
unfolding setting-Copies
serve_releases_example =
    serve_releases setting setting-Copies (λ port w. returned tt w) (λ ctx w. thrown no_error w) 80
      5 (λ w. refl) (λ ctx w. refl)

-- It does run to its end.
served_five :
    serve setting (λ port w. returned tt w) (λ ctx w. thrown no_error w) 80 5 ≡ thrown no_error 5
unfolding serve Server.set_up Certificate.x509_to_cert_context Crypto.crypt_string_to_binary
    Server.set_up_with Certificate.import_private_key_ec Certificate.import_private_key
    Crypto.crypt_decode_object_ex Certificate.import_into Certificate.assign_private_key
    Server.tear_down Certificate.delete_private_key_ec Certificate.delete_private_key
    Context.destruct Context.use_certificate Context.new_context trust
    Context.add_authority_or_throw Context.add_certificate_authority async_handshake
    Async.Handshake.async_handshake Async.Handshake.run Async.Handshake.resume
    Async.Handshake.take_result Async.Handshake.reenter Async.Handshake.loop Handshake.step
    Handshake.start ContextBuffer.assign_temporary Async.Handshake.answer Async.Handshake.perform
served_five = refl

abbrev net : Net World
net = record {
  async_connect = λ w. (no_error, w);
  async_write = write_all;
  async_read = λ fuel n t.
      finished (record { error = no_error; count = n; delivered = 104 ∷ 105 ∷ []; stream = t });
  typed = 104 ∷ 105 ∷ 10 ∷ 106 ∷ [];
}

net-TransfersAll : TransfersAll net
net-TransfersAll = record {
  writes_all = λ fuel bs t c e fine. ground arith;
  reads_all = λ fuel n t c e fine. ground arith;
}

abbrev client_of : Run (Client World) → Client World
client_of (finished s) = s
client_of aborted = new_client answering zeros
client_of unfinished = new_client answering zeros

abbrev replied : Client World
replied = client_of (completions platform net client_context 5 9 (new_client answering zeros))

abbrev hello : Bytes
hello = 104 ∷ 105 ∷ []

abbrev no_others : List Bytes
no_others = []

reply_fits_example : (no_others ≡ []) × (length hello ≡ asked net.typed) × (length hello < 1024)
unfolding completions EchoClient.complete new_client EchoClient.on_connect async_handshake
    Async.Handshake.async_handshake Async.Handshake.run Async.Handshake.resume
    Async.Handshake.take_result Async.Handshake.reenter Async.Handshake.loop Handshake.step
    Handshake.start ContextBuffer.assign_temporary Async.Handshake.answer Async.Handshake.perform
    Handshake.size_written trust Certificate.x509_to_cert_context Crypto.crypt_string_to_binary
    Context.add_authority_or_throw Context.add_certificate_authority Context.new_context construct
    Stream.new_stream Handshake.new_handshake Handshake.size_read Handshake.digest
    Handshake.call_package Handshake.conclude client_context Context.verify_server_certificate
    Context.verify_certificate Context.use_default_certificates Context.verify_certificate_chain
    EchoClient.on_handshake EchoClient.send_request EchoClient.on_write EchoClient.receive_response
    EchoClient.on_read Connection.async_shutdown Async.Shutdown.async_shutdown Async.Shutdown.run
    Async.Shutdown.resume Async.Shutdown.reenter Shutdown.start_shutdown EchoClient.on_shutdown
reply_fits_example =
    reply_fits platform net net-TransfersAll client_context 5 9 answering zeros replied hello
      no_others refl refl

abbrev certified : Setting World
certified = record {
  crypt = crypt (λ w. w);
  certs = certificates;
  mbstowcs = λ bs. (length bs, bs);
  debug = true;
  x509_certificate = 1 ∷ [];
  rsa_key = 2 ∷ [];
  private_key_name_ = 3 ∷ [];
}

abbrev empty_world : World
empty_world = record { freed = []; incoming = []; sent = [] }

abbrev held_of : Call World (CertContext × Context) → CertContext × Context
held_of (returned held w) = held
held_of (thrown e w) = (0, client_context)
held_of stopped = (0, client_context)

abbrev held : CertContext × Context
held = held_of (trust certified empty_world)

abbrev completion_of : Run (Completion World) → Completion World
completion_of (finished c) = c
completion_of aborted = record { error = no_error; count = 0; delivered = []; stream = answering }
completion_of unfinished = record {
  error = no_error;
  count = 0;
  delivered = [];
  stream = answering;
}

abbrev shaken : Completion World
shaken = completion_of (async_handshake platform held.1 9 client answering)

handshake_trusts_example :
    Founded certified held.0 held.1 empty_world empty_world
    × TrustsPeer platform held.1
        (Handshake.start careful held.1 client (Connection.session_of answering))
        shaken.stream
unfolding trust Certificate.x509_to_cert_context Crypto.crypt_string_to_binary
    Context.add_authority_or_throw Context.add_certificate_authority Context.new_context
    async_handshake Async.Handshake.async_handshake Async.Handshake.run Async.Handshake.resume
    Async.Handshake.take_result Async.Handshake.reenter Async.Handshake.loop Handshake.step
    Handshake.start ContextBuffer.assign_temporary Async.Handshake.answer Async.Handshake.perform
    Handshake.size_written construct Stream.new_stream Handshake.new_handshake Handshake.size_read
    Handshake.digest Handshake.call_package Handshake.conclude Context.verify_server_certificate
    Context.verify_certificate Context.verify_certificate_chain
handshake_trusts_example =
    handshake_trusts certified platform careful-NeverAtOnce layer-ClearsErrors
      certificates-FailsWithCode empty_world empty_world held 9 answering shaken refl refl refl
