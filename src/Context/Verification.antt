-- ===== src/Context/Verification.antt =====
-- Which certificates a context accepts, and what adding an authority reports.
use boost_windows_tls.Common.{ℕ, ◌≡◌, ◌≢◌, ◌⊎◌, ◌↔◌, if◌then◌else◌, true, false, arith}
use boost_windows_tls.Windows.{error_success}
use boost_windows_tls.ErrorCode.{ErrorCode, get_last_error}
use boost_windows_tls.Schannel.{CertContext}
use boost_windows_tls.Context.{
  CertApi, Context, verify_certificate_chain, verify_certificate, add_authority,
}

-- A failing Windows call leaves a last error that is not ERROR_SUCCESS.
pub record FailsWithCode {World : Type 0} (api : CertApi World) : Type 0 where
  pub engine_code :
      (store : ℕ) (w : World)
      → (api.create_chain_engine store w).0 ≡ false
      → api.last_error (api.create_chain_engine store w).2 ≢ error_success
  pub chain_code :
      (engine : ℕ) (cert : CertContext) (w : World)
      → (api.get_chain engine cert w).0 ≡ false
      → api.last_error (api.get_chain engine cert w).2 ≢ error_success
  pub policy_code :
      (chain : ℕ) (w : World)
      → (api.verify_policy chain w).0 ≡ false
      → api.last_error (api.verify_policy chain w).2 ≢ error_success

module _ {World : Type 0} (api : CertApi World) where
  -- The engine builds a chain of the certificate, and the policy finds no error in it.
  abbrev pub GoodChain : CertContext → ℕ → World → Type 0
  GoodChain cert engine w =
      let (built, chain, w') = api.get_chain engine cert w in
      let (checked, error, w'') = api.verify_policy chain w' in
      (built ≡ true) × (checked ≡ true) × (error ≡ error_success)

  -- The world behind the question to an engine: a chain that was built is released.
  abbrev pub engine_asked : CertContext → ℕ → World → World
  engine_asked cert engine w =
      let (built, chain, w') = api.get_chain engine cert w in
      if built then api.free_chain chain (api.verify_policy chain w').2 else w'

  -- The engine of the context's own store finds a good chain.
  abbrev pub TrustedByStore : CertContext → Context → World → Type 0
  TrustedByStore cert ctx w =
      let (created, engine, w') = api.create_chain_engine ctx.ctx_certs.cert_store w in
      (ctx.ctx_certs.cert_store ≢ 0) × (created ≡ true) × GoodChain cert engine w'

  -- The system's store may be used and finds a good chain, after there was no own store or its
  -- engine found none.
  abbrev pub TrustedBySystem : CertContext → Context → World → Type 0
  TrustedBySystem cert ctx w =
      let (created, engine, w') = api.create_chain_engine ctx.ctx_certs.cert_store w in
      (ctx.ctx_certs.use_default_cert_store ≡ true)
      × (((ctx.ctx_certs.cert_store ≡ 0) × GoodChain cert 0 w)
          ⊎ ((ctx.ctx_certs.cert_store ≢ 0)
              × (created ≡ true)
              × ¬ GoodChain cert engine w'
              × GoodChain cert 0 (api.free_chain_engine engine (engine_asked cert engine w'))))

  module _ (codes : FailsWithCode api) where
    -- The status of a chain is that of its policy, if there is one.
    chain_good :
        (cert : CertContext) (engine : ℕ) (w : World)
        → ((verify_certificate_chain api cert engine w).0 ≡ error_success) ↔ GoodChain cert engine w
    unfolding verify_certificate_chain
    chain_good cert engine w =
        let (built, chain, w') = api.get_chain engine cert w in
        let no_chain = codes.chain_code engine cert w in
        let no_policy = codes.policy_code chain w' in
        (λ e. ground (arith, no_chain, no_policy), λ good. ground (arith, good))

    chain_asked :
        (cert : CertContext) (engine : ℕ) (w : World)
        → (verify_certificate_chain api cert engine w).1 ≡ engine_asked cert engine w
    unfolding verify_certificate_chain
    chain_asked cert engine w = ground arith

    -- A context that verifies accepts a certificate exactly when the engine of its own store, or
    -- where allowed and only after that engine has found none, that of the system's store builds a
    -- chain in which the policy finds no error. A Windows function that fails is to leave an error
    -- code.
    pub verify_certificate_iff :
        (cert : CertContext) (ctx : Context) (w : World)
        → ctx.verify_server ≡ true
        → ((verify_certificate api cert ctx w).0 ≡ error_success)
          ↔ (TrustedByStore cert ctx w ⊎ TrustedBySystem cert ctx w)
    unfolding verify_certificate
    verify_certificate_iff cert ctx w verifies =
        let (created, engine, w') = api.create_chain_engine ctx.ctx_certs.cert_store w in
        let w'' = api.free_chain_engine engine (engine_asked cert engine w') in
        let no_engine = codes.engine_code ctx.ctx_certs.cert_store w in
        let own = chain_good cert engine w' in
        let asked = chain_asked cert engine w' in
        let behind = chain_good cert 0 w'' in
        let alone = chain_good cert 0 w in
        (
          λ e. ground (arith, no_engine, own, asked, behind, alone),
          λ t. ground (arith, no_engine, own, asked, behind, alone),
        )

    -- A context with a store of its own that may not use the system's asks the engine of its store,
    -- and nothing else.
    pub store_alone :
        (cert : CertContext) (ctx : Context) (w : World)
        → ctx.verify_server ≡ true
        → ctx.ctx_certs.cert_store ≢ 0
        → ctx.ctx_certs.use_default_cert_store ≡ false
        → let (created, engine, w') = api.create_chain_engine ctx.ctx_certs.cert_store w in
          (verify_certificate api cert ctx w).0 ≡ error_success
          → (verify_certificate api cert ctx w).1
            ≡ api.free_chain_engine engine (engine_asked cert engine w')
    unfolding verify_certificate
    store_alone cert ctx w verifies own no_system accepted =
        let (created, engine, w') = api.create_chain_engine ctx.ctx_certs.cert_store w in
        ground (arith, chain_asked cert engine w', codes.engine_code ctx.ctx_certs.cert_store w)

  -- Adding an authority to a context with no store opens one; if that fails, its last error is
  -- reported and there is still no store. Otherwise the certificate goes to the new store or the
  -- one there was, which the context keeps: on success the error code is left alone, on failure the
  -- last error is reported.
  add_authority_outcome :
      (cert : CertContext) (ec : ErrorCode) (ctx : Context) (w : World)
      → let (opened, w') = api.open_store w in
        let (ec', ctx', w'') = add_authority api cert ec ctx w in
        let store = ctx'.ctx_certs.cert_store in
        ((ctx.ctx_certs.cert_store ≡ 0)
          × (opened ≡ 0)
          × (ec' ≡ get_last_error (api.last_error w'))
          × (store ≡ 0))
        ⊎ ((store ≢ 0)
            × ((ctx.ctx_certs.cert_store ≡ 0)
                  × (store ≡ opened)
                  × ((api.add_certificate opened cert w' ≡ (true, w'')) × (ec' ≡ ec)
                      ⊎ (api.add_certificate opened cert w' ≡ (false, w''))
                        × (ec' ≡ get_last_error (api.last_error w'')))
                ⊎ (ctx.ctx_certs.cert_store ≢ 0)
                  × (store ≡ ctx.ctx_certs.cert_store)
                  × ((api.add_certificate store cert w ≡ (true, w'')) × (ec' ≡ ec)
                      ⊎ (api.add_certificate store cert w ≡ (false, w''))
                        × (ec' ≡ get_last_error (api.last_error w'')))))
  unfolding add_authority
  add_authority_outcome cert ec ctx w = ground arith
