-- ===== src/Examples/EchoClient.antt =====
-- examples/echo_client.cpp: a line that is sent, and the reply that is printed.
pub mod Replying
pub mod Trusting
use boost_windows_tls.Common.{
  ℕ, zero, suc, ◌-◌, min, Bool, true, not, ◌==◌, if◌then◌else◌, List, [], ◌∷◌, Bytes, Array, length,
  take, slice, store,
}
use boost_windows_tls.ErrorCode.{ErrorCode, failed, Outcome, returns, throws}
use boost_windows_tls.Schannel.{CertContext}
use boost_windows_tls.Flags.{system_default}
use boost_windows_tls.Context.{
  Context, new_context, add_authority_or_throw, verify_server_certificate,
}
use boost_windows_tls.Context
use boost_windows_tls.Certificate.{pem, x509_to_cert_context}
use boost_windows_tls.Certificate.Crypto.{Call, returned, thrown, stopped, and_then}
use boost_windows_tls.Handshake.{client}
use boost_windows_tls.Stream.{Run, finished}
use boost_windows_tls.Connection.{
  Platform, TlsStream, Completion, run_map, run_then, async_handshake, async_shutdown,
}
use boost_windows_tls.Examples.EchoServer.Server.{Setting, on_exit, Ending, usage, conclude}

abbrev pub max_length : ℕ
max_length = 1024

-- `std::cin.getline(request_, n)`: the characters before the end of the line, as many as fit with the
-- terminator.
abbrev pub getline : ℕ → Bytes → Bytes
getline zero typed = []
getline (suc zero) typed = []
getline (suc (suc n)) [] = []
getline (suc (suc n)) (c ∷ cs) = let rest = getline (suc n) cs in if c == 10 then [] else c ∷ rest

-- `std::strlen`, of characters with a terminator behind them.
abbrev pub strlen : Bytes → ℕ
strlen [] = 0
strlen (c ∷ cs) = let rest = strlen cs in if c == 0 then 0 else suc rest

-- What the client waits for; `over` if nothing.
pub data Phase : Type 0 where
  connecting handshaking closing over : Phase
  writing : Bytes → Phase
  reading : ℕ → Phase

-- What it prints to the error stream.
pub data Report : Type 0 where
  connect_failed handshake_failed write_failed read_failed shutdown_failed : ErrorCode → Report

-- `client`; `request_` by the characters before its terminator.
pub record Client (World : Type 0) : Type 0 where
  pub stream : TlsStream World
  pub request_ : Bytes
  pub reply_ : Array
  pub phase : Phase
  pub reports : List Report
  pub printed : List Bytes

-- What of Asio the client calls, by how it completes; a read into a buffer of a size ends when that is
-- full. `typed` is the standard input.
pub record Net (World : Type 0) : Type 0 where
  pub async_connect : World → ErrorCode × World
  pub async_write : ℕ → Bytes → TlsStream World → Run (Completion World)
  pub async_read : ℕ → ℕ → TlsStream World → Run (Completion World)
  pub typed : Bytes

module _ {World : Type 0} where
  -- The constructor, which starts to connect. The array starts with whatever it held.
  unfoldable pub new_client : TlsStream World → Array → Client World
  new_client t a = record {
    stream = t;
    request_ = [];
    reply_ = a;
    phase = connecting;
    reports = [];
    printed = [];
  }

  abbrev pub report : Report → Client World → Client World
  report r s = record s { phase = over; reports = r ∷ s.reports }

  abbrev pub wait_for : Phase → Client World → Client World
  wait_for phase s = record s { phase = phase }

  -- The bytes of `buffer(request_, request_length)`.
  unfoldable pub send_request : Bytes → Client World → Client World
  send_request typed s =
      let line = getline max_length typed in
      record s { request_ = line; phase = writing (take (min (strlen line) max_length) line) }

  -- The size of `buffer(reply_, length)`.
  unfoldable pub receive_response : ℕ → Client World → Client World
  receive_response length s = wait_for (reading (min length max_length)) s

  -- The handlers.
  unfoldable pub on_connect : ErrorCode → Client World → Client World
  on_connect ec s = if not (failed ec) then wait_for handshaking s else report (connect_failed ec) s

  unfoldable pub on_handshake : Bytes → ErrorCode → Client World → Client World
  on_handshake typed ec s =
      if not (failed ec) then send_request typed s else report (handshake_failed ec) s

  unfoldable pub on_write : ErrorCode → ℕ → Client World → Client World
  on_write ec length s =
      if not (failed ec) then receive_response length s else report (write_failed ec) s

  unfoldable pub on_read : ErrorCode → ℕ → Client World → Client World
  on_read ec length s =
      if not (failed ec)
      then wait_for closing (record s { printed = slice s.reply_ 0 length ∷ s.printed })
      else report (read_failed ec) s

  unfoldable pub on_shutdown : ErrorCode → Client World → Client World
  on_shutdown ec s = if failed ec then report (shutdown_failed ec) s else wait_for over s

module _ {World : Type 0} (p : Platform World) (net : Net World) (ctx : Context) where
  -- The operation that the client waits for completes, and its handler runs.
  unfoldable pub complete : ℕ → Client World → Run (Client World)
  complete fuel s = elim s.phase [
    | connecting ↦
        let (ec, w) = net.async_connect s.stream.world in
        finished (on_connect ec (record s { stream = record s.stream { world = w } }))
    | handshaking ↦
        run_map (λ c. on_handshake net.typed c.error (record s { stream = c.stream }))
          (async_handshake p ctx fuel client s.stream)
    | closing ↦
        run_map (λ c. on_shutdown c.error (record s { stream = c.stream }))
          (async_shutdown p fuel s.stream)
    | over ↦ finished s
    | writing bs ↦
        run_map (λ c. on_write c.error c.count (record s { stream = c.stream }))
          (net.async_write fuel bs s.stream)
    | reading n ↦
        run_map
          (λ c.
            on_read c.error c.count
              (record s { stream = c.stream; reply_ = store s.reply_ 0 c.delivered }))
          (net.async_read fuel n s.stream)
  ]

  -- As many completions one behind the other.
  unfoldable pub completions : ℕ → ℕ → Client World → Run (Client World)
  completions zero fuel s = finished s
  completions (suc n) fuel s = run_then (complete fuel s) (completions n fuel)

module _ {World : Type 0} (g : Setting World) where
  -- The end of the scope of the certificate and of the context, which is older.
  abbrev pub let_go : CertContext → Context → World → World
  let_go cert ctx w = Context.destruct g.certs ctx (g.certs.free_certificate cert w)

  -- An exception of the context leaves that scope.
  abbrev pub trusted :
      CertContext → Outcome (Unit {0}) × Context × World → Call World (CertContext × Context)
  trusted cert (returns u, ctx, w) = returned (cert, verify_server_certificate true ctx) w
  trusted cert (throws e, ctx, w) = thrown e (let_go cert ctx w)

  -- The context of `main`: that of the certificate in certificate.hpp, which verifies.
  unfoldable pub trust : World → Call World (CertContext × Context)
  trust w = and_then (x509_to_cert_context g.crypt g.debug g.x509_certificate pem w) (λ cert w'.
      trusted cert (add_authority_or_throw g.certs cert (new_context system_default) w'))

  -- The block of `main` that may throw: `resolve` finds the endpoints, and `run` is `io_context::run`
  -- with the client's handlers.
  unfoldable pub talk :
      (World → Call World (List ℕ))
      → (List ℕ → Context → World → Call World (Unit {0}))
      → World
      → Call World (Unit {0})
  talk resolve run w = and_then (resolve w) (λ endpoints w'.
      and_then (trust w') (λ held w''. on_exit (let_go held.0 held.1) (run endpoints held.1 w'')))

  -- `main`, for the arguments behind the program's name.
  unfoldable pub main :
      (Bytes → Bytes → World → Call World (List ℕ))
      → (List ℕ → Context → World → Call World (Unit {0}))
      → List Bytes
      → World
      → Call World Ending
  main resolve run [] w = returned (usage 1) w
  main resolve run (host ∷ []) w = returned (usage 1) w
  main resolve run (host ∷ port ∷ []) w = conclude (talk (resolve host port) run w)
  main resolve run (host ∷ port ∷ other ∷ more) w = returned (usage 1) w
