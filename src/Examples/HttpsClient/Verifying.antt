-- ===== src/Examples/HttpsClient/Verifying.antt =====
-- examples/https_client.cpp: whom the client has asked when it prints a response.
use boost_windows_tls.Common.{
  ℕ, ◌≡◌, ◌∙◌, ap, refl, arith, true, false, some, List, [], ◌∷◌, Bytes, Option-cases, inl, inr,
}
use boost_windows_tls.ErrorCode.{failed, no_error, Outcome, returns, throws}
use boost_windows_tls.Context.{new_context, use_default_certificates, verify_server_certificate}
use boost_windows_tls.Stream.{Run, finished, aborted, unfinished}
use boost_windows_tls.Connection.{
  Platform, TlsStream, Completion, run_map_ends, or_throw, handshake,
}
use boost_windows_tls.Connection.Verifying.{NeverAtOnce, Shaken, handshake-Shaken}
use boost_windows_tls.Handshake.{client}
use boost_windows_tls.Examples.Url.{Groups, Target, target_of, regex_match}
use boost_windows_tls.Examples.HttpsClient.{
  new_context, use_default_certificates, verify_server_certificate, Web, bind, below, name_host,
  client_context, shake_hands, connect, request, fetch, Exit, conclude, main,
}

-- What follows a statement runs only behind its success.
bind_ends {ℓ κ} :
    {A : Type ℓ} {B : Type κ} {World : Type 0} (r : Run (Outcome A × TlsStream World))
    (f : A → TlsStream World → Run (Outcome B × TlsStream World)) (b : B) (t' : TlsStream World)
    → bind r f ≡ finished (returns b, t')
    → (a : A) × (t : TlsStream World) × (r ≡ finished (returns a, t))
      × (f a t ≡ finished (returns b, t'))
bind_ends (finished (returns a, t)) f b t' e = (a, t, refl, e)
bind_ends (finished (throws c, t)) f b t' e = absurd (ground arith)
bind_ends aborted f b t' e = absurd (ground arith)
bind_ends unfinished f b t' e = absurd (ground arith)

bind_runs {ℓ κ} :
    {A : Type ℓ} {B : Type κ} {World : Type 0} (r : Run (Outcome A × TlsStream World))
    (f : A → TlsStream World → Run (Outcome B × TlsStream World)) (a : A) (t : TlsStream World)
    → r ≡ finished (returns a, t)
    → bind r f ≡ f a t
bind_runs r f a t e = ap (λ r'. bind r' f) e

pub client_context_verifies : client_context.verify_server ≡ true
unfolding client_context verify_server_certificate use_default_certificates new_context
client_context_verifies = refl

module _ {World : Type 0} (p : Platform World) (web : Web World) (fuel : ℕ)
    (never : NeverAtOnce p.sspi) where
  -- The statements in front of the handshake.
  abbrev pub reach : Target → TlsStream World → Run (Outcome (Unit {0}) × TlsStream World)
  reach target t = bind (name_host p web fuel target.host t) (λ u t₁.
      bind (below (web.resolve target.host target.port) t₁)
        (λ results t₂. below (web.connect results) t₂))

  returns_fine :
      (c : Completion World) (u : Unit {0}) (t : TlsStream World)
      → (returns u, t) ≡ or_throw c
      → (failed c.error ≡ false) × (t ≡ c.stream)
  returns_fine c u t e = ground arith

  shake_hands-Shaken :
      (t t' : TlsStream World) (u : Unit {0})
      → shake_hands p web fuel t ≡ finished (returns u, t')
      → Shaken p client_context t t'
  shake_hands-Shaken t t' u e =
      let (c, ends, same) =
        run_map_ends or_throw (handshake p client_context fuel client no_error t) (returns u, t')
          e in
      let (fine, stream) = returns_fine c u t' same in
      rw stream (
        handshake-Shaken p never client_context client_context_verifies fuel no_error t c ends fine)

  -- How the connection came about.
  abbrev pub Connected : Target → TlsStream World → TlsStream World → Type 0
  Connected target t t' =
      (t₀ : TlsStream World) × (reach target t ≡ finished (returns tt, t₀))
      × (shake_hands p web fuel t₀ ≡ finished (returns tt, t'))
      × Shaken p client_context t₀ t'

  connect-Connected :
      (target : Target) (t t' : TlsStream World) (u : Unit {0})
      → connect p web fuel target t ≡ finished (returns u, t')
      → Connected target t t'
  unfolding connect
  connect-Connected target t t' u e =
      let (u₁, t₁, named, e₁) = bind_ends (name_host p web fuel target.host t) _ u t' e in
      let (results, t₂, resolved, e₂) =
        bind_ends (below (web.resolve target.host target.port) t₁) _ u t' e₁ in
      let (u₃, t₃, connected, e₃) = bind_ends (below (web.connect results) t₂) _ u t' e₂ in
      (
        t₃,
        bind_runs (name_host p web fuel target.host t) _ u₁ t₁ named
            ∙ bind_runs (below (web.resolve target.host target.port) t₁) _ results t₂ resolved
            ∙ connected,
        e₃,
        shake_hands-Shaken t₃ t' u e₃,
      )

  -- A response to the request for an URL came over the stream that was connected for it.
  abbrev pub Answered : Bytes → TlsStream World → Bytes → Type 0
  Answered url t response =
      (what : Groups) × (t₁ : TlsStream World) × (t₂ : TlsStream World) × (regex_match url
        ≡ some what)
      × Connected (target_of what) t t₁
      × (request p web fuel (target_of what) t₁ ≡ finished (returns response, t₂))

  fetch-Connected :
      (target : Target) (t t' : TlsStream World) (response : Bytes)
      → fetch p web fuel target t ≡ finished (returns response, t')
      → (t₁ : TlsStream World) × Connected target t t₁
        × (request p web fuel target t₁ ≡ finished (returns response, t'))
  unfolding fetch
  fetch-Connected target t t' response e =
      let (u, t₁, connected, asked) = bind_ends (connect p web fuel target t) _ response t' e in
      (t₁, connect-Connected target t t₁ u connected, asked)

  -- What is printed is the response.
  conclude_prints :
      (r : Run (Outcome Bytes × TlsStream World)) (out : Exit) (t' : TlsStream World)
      (response : Bytes)
      → conclude p web fuel r ≡ finished (out, t')
      → out.printed ≡ some response
      → (t : TlsStream World) × (r ≡ finished (returns response, t))
  unfolding conclude
  conclude_prints aborted out t' response e printed = absurd (ground arith)
  conclude_prints unfinished out t' response e printed = absurd (ground arith)
  conclude_prints (finished (throws c, t)) out t' response e printed = absurd (ground arith)
  conclude_prints (finished (returns got, t)) out t' response e printed = (t, ground arith)

  -- A response that the client prints is the answer to its request for the only argument, a URL
  -- that the expression matches, over the stream that was connected for that URL: the statements in
  -- front of the handshake ran to their end, the handshake behind them reported no error, and it
  -- either verified the certificate of its peer in the client's context or, unverified, ended
  -- behind an iteration in which the package finished with a token to be sent or with input to
  -- spare. That holds however the shutdown then ended. The first call of the package for a client
  -- is never to finish a handshake.
  pub main-Answered :
      (argv : List Bytes) (t t' : TlsStream World) (out : Exit) (response : Bytes)
      → main p web fuel argv t ≡ finished (out, t')
      → out.printed ≡ some response
      → (url : Bytes) × (argv ≡ url ∷ []) × Answered url t response
  unfolding main
  main-Answered [] t t' out response e printed = absurd (ground arith)
  main-Answered (a ∷ b ∷ more) t t' out response e printed = absurd (ground arith)
  main-Answered (url ∷ []) t t' out response e printed = elim (Option-cases (regex_match url)) [
    | inl unsupported ↦ absurd (ground (arith, unsupported))
    | inr (what, found) ↦
        let (t₂, fetched) =
          conclude_prints (fetch p web fuel (target_of what) t) out t' response
            (ground (arith, found)) printed in
        let (t₁, connected, asked) = fetch-Connected (target_of what) t t₂ response fetched in
        (url, refl, (what, t₁, t₂, found, connected, asked))
  ]
