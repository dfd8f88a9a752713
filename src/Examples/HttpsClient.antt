-- ===== src/Examples/HttpsClient.antt =====
-- examples/https_client.cpp: one request over a blocking stream.
pub mod Verifying
use boost_windows_tls.Common.{
  ℕ, Bool, true, false, if◌then◌else◌, Option, none, some, List, [], ◌∷◌, Bytes, Array,
}
use boost_windows_tls.ErrorCode.{ErrorCode, failed, no_error, Outcome, returns, throws}
use boost_windows_tls.Flags.{system_default}
use boost_windows_tls.Context.{
  Context, new_context, use_default_certificates, verify_server_certificate,
}
use boost_windows_tls.Handshake.{client}
use boost_windows_tls.Stream.{Run, finished, aborted, unfinished}
use boost_windows_tls.Connection.{
  Platform, TlsStream, Completion, run_map, or_throw, construct, set_server_hostname, handshake,
  shutdown,
}
use boost_windows_tls.Examples.Url.{regex_match, Target, target_of}

-- What of Asio and Beast the clients call: the resolver and the connection for a host and a port, the
-- request for a host and a path, and the response, each on the stream.
pub record Web (World : Type 0) : Type 0 where
  pub resolve : Bytes → Bytes → World → Outcome (List ℕ) × World
  pub connect : List ℕ → World → Outcome (Unit {0}) × World
  pub write : ℕ → Bytes → Bytes → TlsStream World → Run (Outcome (Unit {0}) × TlsStream World)
  pub read : ℕ → TlsStream World → Run (Outcome Bytes × TlsStream World)
  pub mbstowcs : Bytes → ℕ × Bytes

-- The next statement, unless there was an exception.
abbrev pub bind {ℓ κ} :
    {A : Type ℓ} {B : Type κ} {World : Type 0}
    → Run (Outcome A × TlsStream World)
    → (A → TlsStream World → Run (Outcome B × TlsStream World))
    → Run (Outcome B × TlsStream World)
bind (finished (returns a, t)) f = f a t
bind (finished (throws e, t)) f = finished (throws e, t)
bind aborted f = aborted
bind unfinished f = unfinished

-- A statement about the layer below, which is in the world.
abbrev pub below {ℓ} :
    {A : Type ℓ} {World : Type 0}
    → (World → Outcome A × World)
    → TlsStream World
    → Run (Outcome A × TlsStream World)
below f t = let (outcome, w) = f t.world in finished (outcome, record t { world = w })

-- The context: that of the system's certificates, which verifies.
unfoldable pub client_context : Context
client_context =
    verify_server_certificate true (use_default_certificates true (new_context system_default))

module _ {World : Type 0} (p : Platform World) (web : Web World) (fuel : ℕ) where
  -- `set_server_hostname`
  abbrev pub name_host : Bytes → TlsStream World → Run (Outcome (Unit {0}) × TlsStream World)
  name_host host t = elim (set_server_hostname p.debug web.mbstowcs host t) [
    | none ↦ aborted
    | some t' ↦ finished (returns tt, t')
  ]

  -- `handshake(handshake_type::client)`
  abbrev pub shake_hands : TlsStream World → Run (Outcome (Unit {0}) × TlsStream World)
  shake_hands t = run_map or_throw (handshake p client_context fuel client no_error t)

  -- `shutdown()`
  abbrev pub close : TlsStream World → Run (Outcome (Unit {0}) × TlsStream World)
  close t = elim (shutdown p t) [ none ↦ aborted | some c ↦ finished (or_throw c) ]

  -- The statements up to the handshake.
  unfoldable pub connect : Target → TlsStream World → Run (Outcome (Unit {0}) × TlsStream World)
  connect target t = bind (name_host target.host t) (λ u t₁.
      bind (below (web.resolve target.host target.port) t₁)
        (λ results t₂. bind (below (web.connect results) t₂) (λ u' t₃. shake_hands t₃)))

  -- The request and the response, which is printed.
  unfoldable pub request : Target → TlsStream World → Run (Outcome Bytes × TlsStream World)
  request target t = bind (web.write fuel target.host target.path t) (λ u t₁. web.read fuel t₁)

  -- From the making of the stream to the response.
  unfoldable pub fetch : Target → TlsStream World → Run (Outcome Bytes × TlsStream World)
  fetch target t = bind (connect target t) (λ u t₁. request target t₁)

-- What `main` printed to the standard output, its exit code, and why it failed if an exception did it.
pub record Exit : Type 0 where
  pub printed : Option Bytes
  pub exit_code : ℕ
  pub exception : Option ErrorCode

-- `EXIT_FAILURE` without an exception: the usage, or an unsupported URL.
abbrev pub refusal : Exit
refusal = record { printed = none; exit_code = 1; exception = none }

module _ {World : Type 0} (p : Platform World) (web : Web World) (fuel : ℕ) where
  -- What comes behind the response: the shutdown, and the exit.
  unfoldable pub conclude : Run (Outcome Bytes × TlsStream World) → Run (Exit × TlsStream World)
  conclude aborted = aborted
  conclude unfinished = unfinished
  conclude (finished (throws e, t)) =
      finished (record { printed = none; exit_code = 1; exception = some e }, t)
  conclude (finished (returns response, t)) = elim (close p web fuel t) [
    | aborted ↦ aborted
    | unfinished ↦ unfinished
    | finished (returns u, t') ↦
        finished (record { printed = some response; exit_code = 0; exception = none }, t')
    | finished (throws e, t') ↦
        finished (record { printed = some response; exit_code = 1; exception = some e }, t')
  ]

  -- `main`, for the arguments behind the program's name.
  unfoldable pub main : List Bytes → TlsStream World → Run (Exit × TlsStream World)
  main [] t = finished (refusal, t)
  main (url ∷ []) t = elim (regex_match url) [
    | none ↦ finished (refusal, t)
    | some what ↦ conclude (fetch p web fuel (target_of what) t)
  ]
  main (a ∷ b ∷ more) t = finished (refusal, t)
