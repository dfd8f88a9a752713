-- ===== src/Context.antt =====
-- context.hpp and detail/context_certificates.hpp: certificates, and verification of the peer's.
pub mod Verification
pub mod Releasing
use boost_windows_tls.Common.{ℕ, Bool, true, false, ◌&&◌, ◌!=◌, if◌then◌else◌, Option, none, some}
use boost_windows_tls.Windows.{error_success, cert_e_untrustedroot}
use boost_windows_tls.ErrorCode.{
  ErrorCode, no_error, get_last_error, Outcome, returns, throws, throw_last_error,
}
use boost_windows_tls.Flags.{Method}
use boost_windows_tls.Schannel.{CertContext}

-- The certificate functions of Windows. Stores, engines and chains are handles, 0 being null.
pub record CertApi (World : Type 0) : Type 0 where
  -- CertOpenStore, of a store in memory
  pub open_store : World → ℕ × World
  pub close_store : ℕ → World → World
  -- CertAddCertificateContextToStore
  pub add_certificate : ℕ → CertContext → World → Bool × World
  pub last_error : World → ℕ
  -- CertCreateCertificateChainEngine, with the store as its exclusive root
  pub create_chain_engine : ℕ → World → Bool × ℕ × World
  pub free_chain_engine : ℕ → World → World
  -- CertGetCertificateChain; engine 0 is that of the system's store
  pub get_chain : ℕ → CertContext → World → Bool × ℕ × World
  pub free_chain : ℕ → World → World
  -- CertVerifyCertificateChainPolicy; the number is `policy_status.dwError`
  pub verify_policy : ℕ → World → Bool × ℕ × World
  -- CertDuplicateCertificateContext
  pub duplicate : CertContext → World → CertContext × World
  pub free_certificate : CertContext → World → World

-- `context_certificates`
pub record ContextCertificates : Type 0 where
  pub cert_store : ℕ
  pub use_default_cert_store : Bool
  pub server_cert : CertContext

pub record Context : Type 0 where
  pub ctx_certs : ContextCertificates
  pub method : Method
  pub verify_server : Bool

-- The constructor of `context`.
unfoldable pub new_context : Method → Context
new_context connection_method = record {
  ctx_certs = record { cert_store = 0; use_default_cert_store = false; server_cert = 0 };
  method = connection_method;
  verify_server = false;
}

module _ {World : Type 0} (api : CertApi World) where
  -- The second half of `context_certificates::add_certificate_authority`.
  add_to_store :
      CertContext → ContextCertificates → World → Outcome (Unit {0}) × ContextCertificates × World
  add_to_store cert c w =
      let (added, w') = api.add_certificate c.cert_store cert w in
      if added then (returns tt, c, w') else (throw_last_error (api.last_error w'), c, w')

  -- `context_certificates::add_certificate_authority`: the store is opened at the first call.
  unfoldable pub add_certificate_authority :
      CertContext → ContextCertificates → World → Outcome (Unit {0}) × ContextCertificates × World
  unfolding add_to_store
  add_certificate_authority cert c w =
      let (store, w') = api.open_store w in
      if c.cert_store != 0
      then add_to_store cert c w
      else (if store != 0
          then add_to_store cert (record c { cert_store = store }) w'
          else (throw_last_error (api.last_error w'), record c { cert_store = store }, w'))

  -- `context_certificates::verify_certificate_chain`
  unfoldable pub verify_certificate_chain : CertContext → ℕ → World → ℕ × World
  verify_certificate_chain cert engine w =
      let (got, chain, w') = api.get_chain engine cert w in
      let (checked, status, w'') = api.verify_policy chain w' in
      if got
      then (if checked
          then (status, api.free_chain chain w'')
          else (api.last_error w'', api.free_chain chain w''))
      else (api.last_error w', w')

  -- The default store's turn, after the status so far.
  verify_by_default : CertContext → Bool → ℕ × World → ℕ × World
  verify_by_default cert use_default (status, w) =
      if (status != error_success) && use_default
      then verify_certificate_chain cert 0 w
      else (status, w)

  -- `context_certificates::verify_certificate`
  unfoldable pub verify_by_store : CertContext → ContextCertificates → World → ℕ × World
  unfolding verify_by_default
  verify_by_store cert c w =
      let (created, engine, w') = api.create_chain_engine c.cert_store w in
      let (status, w'') = verify_certificate_chain cert engine w' in
      if c.cert_store != 0
      then (if created
          then verify_by_default cert c.use_default_cert_store
              (status, api.free_chain_engine engine w'')
          else (api.last_error w', api.free_chain_engine engine w'))
      else verify_by_default cert c.use_default_cert_store (cert_e_untrustedroot, w)

  -- `context::verify_certificate`
  unfoldable pub verify_certificate : CertContext → Context → World → ℕ × World
  unfolding verify_by_store
  verify_certificate cert ctx w =
      if ctx.verify_server then verify_by_store cert ctx.ctx_certs w else (error_success, w)

  -- `context::add_certificate_authority(cert, ec)`: an exception becomes an error code, and `ec` is
  -- left alone otherwise.
  unfoldable pub add_authority :
      CertContext → ErrorCode → Context → World → ErrorCode × Context × World
  unfolding add_certificate_authority
  add_authority cert ec ctx w =
      let (outcome, certs, w') = add_certificate_authority cert ctx.ctx_certs w in
      elim outcome [
        | returns u ↦ (ec, record ctx { ctx_certs = certs }, w')
        | throws e ↦ (e, record ctx { ctx_certs = certs }, w')
      ]

  -- `context::use_certificate`: the certificate held before is released after the new one is taken.
  unfoldable pub use_certificate : CertContext → Context → World → Context × World
  use_certificate cert ctx w =
      let (copy, w') = api.duplicate cert w in
      let old = ctx.ctx_certs.server_cert in
      (
        record ctx { ctx_certs = record ctx.ctx_certs { server_cert = copy } },
        if old != 0 then api.free_certificate old w' else w',
      )

  -- `context::add_certificate_authority(cert)`
  unfoldable pub add_authority_or_throw :
      CertContext → Context → World → Outcome (Unit {0}) × Context × World
  add_authority_or_throw cert ctx w =
      let (outcome, certs, w') = add_certificate_authority cert ctx.ctx_certs w in
      (outcome, record ctx { ctx_certs = certs }, w')

  -- The destructor: the store, then the certificate of the server.
  unfoldable pub destruct : Context → World → World
  destruct ctx w =
      let c = ctx.ctx_certs in
      let w' = if c.cert_store != 0 then api.close_store c.cert_store w else w in
      if c.server_cert != 0 then api.free_certificate c.server_cert w' else w'

-- `context::verify_server_certificate`
unfoldable pub verify_server_certificate : Bool → Context → Context
verify_server_certificate verify ctx = record ctx { verify_server = verify }

-- `context::use_default_certificates`
unfoldable pub use_default_certificates : Bool → Context → Context
use_default_certificates use_system ctx = record ctx {
  ctx_certs = record ctx.ctx_certs { use_default_cert_store = use_system };
}
