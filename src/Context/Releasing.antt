-- ===== src/Context/Releasing.antt =====
-- detail/context_certificates.hpp: what verification of a certificate leaves behind.
use boost_windows_tls.Common.{ℕ, suc, ◌-◌, ◌≡◌, ◌!=◌, if◌then◌else◌, arith}
use boost_windows_tls.Schannel.{CertContext}
use boost_windows_tls.Context.{CertApi, Context, verify_certificate, verify_certificate_chain}

-- How many chain engines and chains the program holds, and how the calls change that.
pub record ChainLedger {World : Type 0} (api : CertApi World) : Type 0 where
  pub engines : World → ℕ
  pub chains : World → ℕ
  pub create_engines :
      (store : ℕ) (w : World)
      → engines (api.create_chain_engine store w).2
        ≡ (if (api.create_chain_engine store w).0 then suc (engines w) else engines w)
  pub create_chains :
      (store : ℕ) (w : World) → chains (api.create_chain_engine store w).2 ≡ chains w
  -- The engine is null exactly if it could not be made.
  pub create_handle :
      (store : ℕ) (w : World)
      → ((api.create_chain_engine store w).1 != 0) ≡ (api.create_chain_engine store w).0
  pub free_engines :
      (e : ℕ) (w : World)
      → engines (api.free_chain_engine e w) ≡ (if e != 0 then engines w - 1 else engines w)
  pub free_engine_chains : (e : ℕ) (w : World) → chains (api.free_chain_engine e w) ≡ chains w
  pub get_engines :
      (e : ℕ) (c : CertContext) (w : World) → engines (api.get_chain e c w).2 ≡ engines w
  pub get_chains :
      (e : ℕ) (c : CertContext) (w : World)
      → chains (api.get_chain e c w).2
        ≡ (if (api.get_chain e c w).0 then suc (chains w) else chains w)
  pub policy_engines : (c : ℕ) (w : World) → engines (api.verify_policy c w).2 ≡ engines w
  pub policy_chains : (c : ℕ) (w : World) → chains (api.verify_policy c w).2 ≡ chains w
  pub free_chain_engines : (c : ℕ) (w : World) → engines (api.free_chain c w) ≡ engines w
  pub free_chains : (c : ℕ) (w : World) → chains (api.free_chain c w) ≡ chains w - 1

module _ {World : Type 0} (api : CertApi World) (ledger : ChainLedger api) where
  open ledger use {engines, chains}

  chain_releases :
      (cert : CertContext) (engine : ℕ) (w : World)
      → (engines (verify_certificate_chain api cert engine w).1 ≡ engines w)
        × (chains (verify_certificate_chain api cert engine w).1 ≡ chains w)
  unfolding verify_certificate_chain
  chain_releases cert engine w =
      let (got, chain, w₁) = api.get_chain engine cert w in
      let (checked, status, w₂) = api.verify_policy chain w₁ in
      ground (
        arith,
        ledger.get_engines engine cert w,
        ledger.get_chains engine cert w,
        ledger.policy_engines chain w₁,
        ledger.policy_chains chain w₁,
        ledger.free_chain_engines chain w₂,
        ledger.free_chains chain w₂,
      )

  -- Verifying a certificate keeps no chain engine and no chain, whatever fails and whichever stores
  -- are asked: of functions that count what they hand out, as many are held afterwards as before.
  pub verify_certificate_releases :
      (cert : CertContext) (ctx : Context) (w : World)
      → (engines (verify_certificate api cert ctx w).1 ≡ engines w)
        × (chains (verify_certificate api cert ctx w).1 ≡ chains w)
  unfolding verify_certificate
  verify_certificate_releases cert ctx w =
      let store = ctx.ctx_certs.cert_store in
      let (created, engine, w₁) = api.create_chain_engine store w in
      let w₂ = (verify_certificate_chain api cert engine w₁).1 in
      let w₃ = api.free_chain_engine engine w₂ in
      ground (
        arith,
        ledger.create_engines store w,
        ledger.create_chains store w,
        ledger.create_handle store w,
        ledger.free_engines engine w₁,
        ledger.free_engine_chains engine w₁,
        ledger.free_engines engine w₂,
        ledger.free_engine_chains engine w₂,
        chain_releases cert engine w₁,
        chain_releases cert 0 w,
        chain_releases cert 0 w₃,
      )
