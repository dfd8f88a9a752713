-- ===== src/Connection/Holdings.antt =====
-- What the security package holds for the program while a stream lives.
use boost_windows_tls.Common.{ℕ, ◌+◌, ◌-◌, ◌≡◌, if◌then◌else◌, arith, none, some, Bytes}
use boost_windows_tls.Schannel.{
  Handle, is_set, Credentials, InitializeArgs, AcceptArgs, CertContext,
}
use boost_windows_tls.Context.{Context, verify_certificate, verify_certificate_chain}
use boost_windows_tls.Connection.{Platform}

-- Whether a handle is set, as a number.
abbrev pub one : Handle → ℕ
one h = if is_set h then 1 else 0

-- How many contexts and credentials the security package holds for the program, and how the calls
-- change that. Those of the next layer and of the certificate functions do not.
pub record Holdings {World : Type 0} (p : Platform World) : Type 0 where
  pub contexts : World → ℕ
  pub credentials : World → ℕ
  pub acquire :
      (c : Credentials) (w : World)
      → let r = p.sspi.acquire_credentials_handle c w in
        (contexts r.world ≡ contexts w) × (credentials r.world ≡ credentials w + one r.credential)
  -- A call without a context makes one, or gives a null handle.
  pub initialize_first :
      (a : InitializeArgs) (w : World)
      → a.existing ≡ none
      → let r = p.sspi.initialize_security_context a w in
        (contexts r.world ≡ contexts w + one r.new_context) × (credentials r.world ≡ credentials w)
  pub initialize_next :
      (a : InitializeArgs) (h : Handle) (w : World)
      → a.existing ≡ some h
      → let r = p.sspi.initialize_security_context a w in
        (contexts r.world ≡ contexts w) × (credentials r.world ≡ credentials w)
  pub accept_first :
      (a : AcceptArgs) (w : World)
      → a.existing ≡ none
      → let r = p.sspi.accept_security_context a w in
        (contexts r.world ≡ contexts w + one r.new_context) × (credentials r.world ≡ credentials w)
  -- A call with a context leaves that one.
  pub accept_next :
      (a : AcceptArgs) (h : Handle) (w : World)
      → a.existing ≡ some h
      → let r = p.sspi.accept_security_context a w in
        (r.new_context ≡ h)
        × (contexts r.world ≡ contexts w)
        × (credentials r.world ≡ credentials w)
  pub query :
      (h : Handle) (w : World)
      → let r = p.sspi.query_remote_cert h w in
        (contexts r.world ≡ contexts w) × (credentials r.world ≡ credentials w)
  pub free_buffer :
      (a : ℕ) (w : World)
      → (contexts (p.sspi.free_context_buffer a w) ≡ contexts w)
        × (credentials (p.sspi.free_context_buffer a w) ≡ credentials w)
  pub delete :
      (h : Handle) (w : World)
      → (contexts (p.sspi.delete_security_context h w) ≡ contexts w - 1)
        × (credentials (p.sspi.delete_security_context h w) ≡ credentials w)
  pub free_credentials :
      (h : Handle) (w : World)
      → (contexts (p.sspi.free_credentials_handle h w) ≡ contexts w)
        × (credentials (p.sspi.free_credentials_handle h w) ≡ credentials w - 1)
  pub read :
      (n : ℕ) (w : World)
      → (contexts (p.layer.read_some n w).world ≡ contexts w)
        × (credentials (p.layer.read_some n w).world ≡ credentials w)
  pub write :
      (bs : Bytes) (w : World)
      → (contexts (p.layer.write bs w).world ≡ contexts w)
        × (credentials (p.layer.write bs w).world ≡ credentials w)
  pub create_engine :
      (s : ℕ) (w : World)
      → (contexts (p.certs.create_chain_engine s w).2 ≡ contexts w)
        × (credentials (p.certs.create_chain_engine s w).2 ≡ credentials w)
  pub free_engine :
      (e : ℕ) (w : World)
      → (contexts (p.certs.free_chain_engine e w) ≡ contexts w)
        × (credentials (p.certs.free_chain_engine e w) ≡ credentials w)
  pub get_chain :
      (e : ℕ) (c : CertContext) (w : World)
      → (contexts (p.certs.get_chain e c w).2 ≡ contexts w)
        × (credentials (p.certs.get_chain e c w).2 ≡ credentials w)
  pub free_chain :
      (c : ℕ) (w : World)
      → (contexts (p.certs.free_chain c w) ≡ contexts w)
        × (credentials (p.certs.free_chain c w) ≡ credentials w)
  pub policy :
      (c : ℕ) (w : World)
      → (contexts (p.certs.verify_policy c w).2 ≡ contexts w)
        × (credentials (p.certs.verify_policy c w).2 ≡ credentials w)
  pub free_certificate :
      (c : CertContext) (w : World)
      → (contexts (p.certs.free_certificate c w) ≡ contexts w)
        × (credentials (p.certs.free_certificate c w) ≡ credentials w)

module _ {World : Type 0} (p : Platform World) (holdings : Holdings p) where
  open holdings use {contexts, credentials}

  abbrev pub Same : World → World → Type 0
  Same w w' = (contexts w' ≡ contexts w) × (credentials w' ≡ credentials w)

  chain-Same :
      (cert : CertContext) (engine : ℕ) (w : World)
      → Same w (verify_certificate_chain p.certs cert engine w).1
  unfolding verify_certificate_chain
  chain-Same cert engine w =
      let (got, chain, w₁) = p.certs.get_chain engine cert w in
      let (checked, status, w₂) = p.certs.verify_policy chain w₁ in
      ground (
        arith,
        holdings.get_chain engine cert w,
        holdings.policy chain w₁,
        holdings.free_chain chain w₂,
      )

  pub verify-Same :
      (cert : CertContext) (ctx : Context) (w : World)
      → Same w (verify_certificate p.certs cert ctx w).1
  unfolding verify_certificate
  verify-Same cert ctx w =
      let store = ctx.ctx_certs.cert_store in
      let (created, engine, w₁) = p.certs.create_chain_engine store w in
      let w₂ = (verify_certificate_chain p.certs cert engine w₁).1 in
      ground (
        arith,
        holdings.create_engine store w,
        holdings.free_engine engine w₁,
        holdings.free_engine engine w₂,
        chain-Same cert engine w₁,
        chain-Same cert 0 w,
        chain-Same cert 0 (p.certs.free_chain_engine engine w₂),
      )
