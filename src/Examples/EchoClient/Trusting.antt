-- ===== src/Examples/EchoClient/Trusting.antt =====
-- examples/echo_client.cpp: which servers the client talks to.
use boost_windows_tls.Common.{◌⊎◌, ◌∙◌, refl, ap, some, ℕ, ◌≡◌, ◌≢◌, arith, true, false, inl, inr}
use boost_windows_tls.Windows.{sec_e_ok}
use boost_windows_tls.ErrorCode.{failed}
use boost_windows_tls.Schannel.{CertContext}
use boost_windows_tls.Flags.{system_default}
use boost_windows_tls.Context.{
  Context, new_context, add_authority_or_throw, add_certificate_authority,
  verify_server_certificate,
}
use boost_windows_tls.Context.Verification.{
  FailsWithCode, TrustedByStore, engine_asked, store_alone, verify_certificate_iff,
}
use boost_windows_tls.Certificate.{pem, x509_to_cert_context}
use boost_windows_tls.Certificate.Crypto.{Call, returned, thrown, stopped, and_then}
use boost_windows_tls.Stream.{finished}
use boost_windows_tls.Stream.Succeeding.{Leads, EndsUnverified, Succeeds}
use boost_windows_tls.Async.HandshakeLaws.{ClearsErrors}
use boost_windows_tls.Connection.{Platform, TlsStream, Completion, async_handshake, session_of}
use boost_windows_tls.Connection.Verifying.{NeverAtOnce, async_handshake-Shaken}
use boost_windows_tls.Handshake.{Session, HandshakeState, client, start, step, call_package}
use boost_windows_tls.Examples.EchoServer.Server.{Setting}
use boost_windows_tls.Examples.EchoClient.{system_default, trust, trusted}

-- A context that verifies by a store of its own alone.
abbrev pub Exclusive : Context → Type 0
Exclusive ctx =
    (ctx.verify_server ≡ true)
    × (ctx.ctx_certs.cert_store ≢ 0)
    × (ctx.ctx_certs.use_default_cert_store ≡ false)

module _ {World : Type 0} (g : Setting World) where
  -- The certificate was put into the store that was opened for the context, and nothing else was.
  abbrev pub Stored : CertContext → Context → World → World → Type 0
  Stored cert ctx w w' =
      (g.certs.open_store w).0 ≡ ctx.ctx_certs.cert_store
      × (g.certs.add_certificate ctx.ctx_certs.cert_store cert (g.certs.open_store w).1
          ≡ (true, w'))

  -- The certificate is that of certificate.hpp, and the context verifies by it alone.
  abbrev pub Founded : CertContext → Context → World → World → Type 0
  Founded cert ctx w w' =
      Exclusive ctx
      × (v : World) × (x509_to_cert_context g.crypt g.debug g.x509_certificate pem w
          ≡ returned cert v)
      × Stored cert ctx v w'

  trusted-Stored :
      (cert : CertContext) (w w' : World) (held : CertContext × Context)
      → trusted g cert (add_authority_or_throw g.certs cert (new_context system_default) w)
        ≡ returned held w'
      → Exclusive held.1 × (held.0 ≡ cert) × Stored cert held.1 w w'
  unfolding add_authority_or_throw add_certificate_authority new_context verify_server_certificate
  trusted-Stored cert w w' held e = ground arith

  trust_ends :
      (c : Call World CertContext) (w' : World) (held : CertContext × Context)
      → and_then c (λ cert w.
        trusted g cert (add_authority_or_throw g.certs cert (new_context system_default) w))
        ≡ returned held w'
      → Exclusive held.1 × (v : World) × (c ≡ returned held.0 v) × Stored held.0 held.1 v w'
  trust_ends (returned cert w) w' held e =
      let (exclusive, same, stored) = trusted-Stored cert w w' held e in
      (exclusive, w, rw same refl, rw same stored)
  trust_ends (thrown c w) w' held e = absurd (ground arith)
  trust_ends stopped w' held e = absurd (ground arith)

  trust-Founded :
      (w w' : World) (held : CertContext × Context)
      → trust g w ≡ returned held w'
      → Founded held.0 held.1 w w'
  unfolding trust
  trust-Founded w w' held e =
      trust_ends (x509_to_cert_context g.crypt g.debug g.x509_certificate pem w) w' held e

module _ {World : Type 0} (p : Platform World) (ctx : Context) where
  -- Behind the certificate that the package reports in some world, the engine of the context's store
  -- is asked and nothing else, and finds a good chain.
  abbrev pub TrustedIn : World → TlsStream World → Type 0
  TrustedIn v t =
      let q = p.sspi.query_remote_cert t.sspi_stream.ctxt_handle v in
      let (created, engine, v') = p.certs.create_chain_engine ctx.ctx_certs.cert_store q.world in
      (q.status ≡ sec_e_ok)
      × TrustedByStore p.certs q.value ctx q.world
      × (t.world
          ≡ p.certs.free_certificate q.value
              (p.certs.free_chain_engine engine (engine_asked p.certs q.value engine v')))

  -- The two ways in which a handshake that began in a session can have ended on a stream.
  abbrev pub TrustsPeer : Session World → TlsStream World → Type 0
  TrustsPeer s t' =
      ((u : Session World) × Leads p.sspi p.asio p.layer p.debug p.certs ctx s u
        × (step p.sspi p.asio p.debug p.certs ctx u ≡ some (HandshakeState.done, session_of t'))
        × TrustedIn (call_package p.sspi u.handshake.handshake_type u).world t')
      ⊎ EndsUnverified p.sspi p.asio p.layer p.debug p.certs ctx s (session_of t')

  accepted_trusts :
      (codes : FailsWithCode p.certs) (s : Session World) (t' : TlsStream World)
      → Exclusive ctx
      → Succeeds p.sspi p.asio p.layer p.debug p.certs ctx s (session_of t')
      → TrustsPeer s t'
  accepted_trusts codes s t' exclusive (inr unverified) = inr unverified
  accepted_trusts codes s t' (verifies, own, no_system)
        (inl (u, leads, stepped, (finishes, asked, accepted, released))) =
      let v = (call_package p.sspi u.handshake.handshake_type u).world in
      let q = p.sspi.query_remote_cert t'.sspi_stream.ctxt_handle v in
      let alone = store_alone p.certs codes q.value ctx q.world verifies own no_system accepted in
      elim ((verify_certificate_iff p.certs codes q.value ctx q.world verifies).0 accepted) [
        | inl by_store ↦ inl (
          u,
          leads,
          stepped,
          (asked, by_store, released ∙ ap (p.certs.free_certificate q.value) alone),
        )
        | inr by_system ↦ absurd (ground (arith, by_system.0, no_system))
      ]

module _ {World : Type 0} (g : Setting World) where
  -- The context that the echo client makes verifies, may not use the system's store, and has the
  -- store that was opened for it, into which the certificate read from certificate.hpp was put. An
  -- asynchronous handshake in it that reports no error either has ended behind the acceptance of a
  -- certificate that the package reported for the connection and for which the engine of that store
  -- found a good chain, no other engine having been asked, or has ended unverified behind an
  -- iteration in which the package finished with a token to be sent or with input to spare. The
  -- first call of the package for a client is never to finish a handshake, the next layer is to
  -- clear the error code when it does not fail, and a Windows function that fails is to leave an
  -- error code.
  pub handshake_trusts :
      (p : Platform World) (never : NeverAtOnce p.sspi) (clean : ClearsErrors p.layer)
      (codes : FailsWithCode p.certs) (w w' : World) (held : CertContext × Context) (fuel : ℕ)
      (t : TlsStream World) (c : Completion World)
      → trust g w ≡ returned held w'
      → async_handshake p held.1 fuel client t ≡ finished c
      → failed c.error ≡ false
      → Founded g held.0 held.1 w w'
        × TrustsPeer p held.1 (start p.sspi held.1 client (session_of t)) c.stream
  handshake_trusts p never clean codes w w' held fuel t c made ends fine =
      let (exclusive, v, read, stored) = trust-Founded g w w' held made in
      (
        (exclusive, v, read, stored),
        accepted_trusts p held.1 codes (start p.sspi held.1 client (session_of t)) c.stream
            exclusive (async_handshake-Shaken p never held.1 exclusive.0 clean fuel t c ends fine),
      )
