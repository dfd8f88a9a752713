-- ===== src/Certificate/Outcomes.antt =====
-- What the functions on certificates and keys leave behind on every path, and how the overloads with
-- an error code report.
use boost_windows_tls.Common.{
  ℕ, suc, ◌-◌, ◌≡◌, ◌≢◌, ◌⊎◌, refl, arith, Bool, true, false, ◌!=◌, if◌then◌else◌, Bool-cases, inl,
  inr, Bytes,
}
use boost_windows_tls.Windows.{aborts}
use boost_windows_tls.ErrorCode.{ErrorCode, no_error, failed}
use boost_windows_tls.Schannel.{CertContext}
use boost_windows_tls.Certificate.Crypto.{
  vector, CryptApi, DecodeType, pkcs_private_key_info, pkcs_rsa_private_key, new_keyset, Call,
  returned, thrown, stopped, and_then, crypt_string_to_binary, crypt_decode_object_ex,
}
use boost_windows_tls.Certificate.{
  with_error_code, is_pem, FileFormat, x509_to_cert_context, x509_to_cert_context_ec, import_into,
  import_private_key,
}

-- What holds of the world that a call leaves, if it leaves one.
abbrev pub Leaves {ℓ} : {World : Type 0} {A : Type ℓ} → (World → Type 0) → Call World A → Type 0
Leaves P (returned a w) = P w
Leaves P (thrown e w) = P w
Leaves P stopped = Unit {0}

and_then-Leaves {ℓ} :
    {World : Type 0} {A B : Type ℓ} (P : World → Type 0) (c : Call World A)
    (f : A → World → Call World B)
    → Leaves P c
    → ((a : A) (w : World) → P w → Leaves P (f a w))
    → Leaves P (and_then c f)
and_then-Leaves P (returned a w) f h k = k a w h
and_then-Leaves P (thrown e w) f h k = h
and_then-Leaves P stopped f h k = tt

-- How many provider contexts and keys the program holds, and how the calls change that.
pub record Ledger {World : Type 0} (api : CryptApi World) : Type 0 where
  pub contexts : World → ℕ
  pub keys : World → ℕ
  pub acquire_contexts :
      (name : Bytes) (w : World)
      → contexts (api.acquire_context name new_keyset w).2
        ≡ (if (api.acquire_context name new_keyset w).0 then suc (contexts w) else contexts w)
  pub acquire_keys :
      (name : Bytes) (w : World) → keys (api.acquire_context name new_keyset w).2 ≡ keys w
  pub import_contexts :
      (c : ℕ) (k : Bytes) (w : World) → contexts (api.import_key c k w).2 ≡ contexts w
  pub import_keys :
      (c : ℕ) (k : Bytes) (w : World)
      → keys (api.import_key c k w).2 ≡ (if (api.import_key c k w).0 then suc (keys w) else keys w)
  pub import_handle :
      (c : ℕ) (k : Bytes) (w : World) → ((api.import_key c k w).1 != 0) ≡ (api.import_key c k w).0
  pub release_contexts : (c : ℕ) (w : World) → contexts (api.release_context c w) ≡ contexts w - 1
  pub release_keys : (c : ℕ) (w : World) → keys (api.release_context c w) ≡ keys w
  pub destroy_contexts : (k : ℕ) (w : World) → contexts (api.destroy_key k w) ≡ contexts w
  pub destroy_keys :
      (k : ℕ) (w : World) → keys (api.destroy_key k w) ≡ (if k != 0 then keys w - 1 else keys w)
  pub binary_size_same :
      (t : Bytes) (w : World)
      → (contexts (api.binary_size t w).2 ≡ contexts w) × (keys (api.binary_size t w).2 ≡ keys w)
  pub to_binary_same :
      (t : Bytes) (n : ℕ) (w : World)
      → (contexts (api.to_binary t n w).2 ≡ contexts w) × (keys (api.to_binary t n w).2 ≡ keys w)
  pub decoded_size_same :
      (d : DecodeType) (t : Bytes) (w : World)
      → (contexts (api.decoded_size d t w).2 ≡ contexts w)
        × (keys (api.decoded_size d t w).2 ≡ keys w)
  pub decode_same :
      (d : DecodeType) (t : Bytes) (n : ℕ) (w : World)
      → (contexts (api.decode d t n w).2 ≡ contexts w) × (keys (api.decode d t n w).2 ≡ keys w)

module _ {World : Type 0} (api : CryptApi World) (ledger : Ledger api) (debug : Bool) where
  open ledger use {contexts, keys}

  -- As many contexts and keys as in a world before.
  abbrev pub Same : World → World → Type 0
  Same w w' = (contexts w' ≡ contexts w) × (keys w' ≡ keys w)

  binary-Same :
      (w : World) (t : Bytes) (w' : World)
      → Same w w'
      → Leaves (Same w) (crypt_string_to_binary api t w')
  unfolding crypt_string_to_binary
  binary-Same w t w' h =
      let (sized, n, w'') = api.binary_size t w' in
      ground (arith, ledger.binary_size_same t w', ledger.to_binary_same t n w'')

  decode-Same :
      (w : World) (d : DecodeType) (t : Bytes) (w' : World)
      → Same w w'
      → Leaves (Same w) (crypt_decode_object_ex api d t w')
  unfolding crypt_decode_object_ex
  decode-Same w d t w' h =
      let (sized, n, w'') = api.decoded_size d t w' in
      ground (arith, ledger.decoded_size_same d t w', ledger.decode_same d t n w'')

  import_into-Same :
      (w : World) (name key : Bytes) (w' : World)
      → Same w w'
      → Leaves (Same w) (import_into api debug name key w')
  unfolding import_into
  import_into-Same w name key w' h =
      let (acquired, context, w₁) = api.acquire_context name new_keyset w' in
      let (imported, handle, w₂) = api.import_key context key w₁ in
      let w₃ = api.destroy_key handle w₂ in
      ground (
        arith,
        ledger.acquire_contexts name w',
        ledger.acquire_keys name w',
        ledger.import_contexts context key w₁,
        ledger.import_keys context key w₁,
        ledger.import_handle context key w₁,
        ledger.destroy_contexts handle w₂,
        ledger.destroy_keys handle w₂,
        ledger.release_contexts context w₃,
        ledger.release_keys context w₃,
      )

  -- Importing a private key never keeps a provider context or a key handle, whether it returns or
  -- throws, and whichever call fails: of functions that count what they hand out, as many are held
  -- afterwards as before.
  pub import_private_key_releases :
      (text : Bytes) (format : FileFormat) (name : Bytes) (w : World)
      → Leaves (Same w) (import_private_key api debug text format name w)
  unfolding import_private_key
  import_private_key_releases text format name w =
      elim (Bool-cases (aborts debug (is_pem format))) [
        | inl refused ↦ rw (refused, import_private_key) tt
        | inr accepted ↦
            rw (accepted, import_private_key)
              (and_then-Leaves (Same w) _ (import_into api debug name)
                (and_then-Leaves (Same w) _ _
                  (and_then-Leaves (Same w) (crypt_string_to_binary api text w) _
                    (binary-Same w text w (refl, refl)) (decode-Same w pkcs_private_key_info))
                  (λ info w' h. elim (Bool-cases (aborts debug (api.is_rsa info))) [
                    | inl other ↦ rw other tt
                    | inr rsa ↦ rw rsa (decode-Same w pkcs_rsa_private_key (api.key_blob info) w' h)
                  ]))
                (import_into-Same w name))
      ]

-- A certificate with no error, or an error and no certificate.
abbrev pub Reports : {World : Type 0} → Call World (CertContext × ErrorCode) → Type 0
Reports (returned (cert, ec) w) = ((cert ≢ 0) × (ec ≡ no_error)) ⊎ ((cert ≡ 0) × (failed ec ≡ true))
Reports (thrown e w) = ⊥
Reports stopped = Unit

-- A call that fails leaves a last error that is not zero.
pub record FailsWithCode {World : Type 0} (api : CryptApi World) : Type 0 where
  pub binary_size_code :
      (t : Bytes) (w : World)
      → (api.binary_size t w).0 ≡ false
      → api.last_error (api.binary_size t w).2 ≢ 0
  pub to_binary_code :
      (t : Bytes) (n : ℕ) (w : World)
      → (api.to_binary t n w).0 ≡ false
      → api.last_error (api.to_binary t n w).2 ≢ 0
  pub create_code :
      (t : Bytes) (w : World)
      → (api.create_certificate t w).0 ≡ 0
      → api.last_error (api.create_certificate t w).1 ≢ 0

module _ {World : Type 0} (api : CryptApi World) (codes : FailsWithCode api) (debug : Bool) where
  -- What is thrown is an error, and a certificate that is returned is one.
  abbrev Genuine : Call World CertContext → Type 0
  Genuine (returned cert w) = cert ≢ 0
  Genuine (thrown e w) = failed e ≡ true
  Genuine stopped = Unit

  Genuine-Reports : (c : Call World CertContext) → Genuine c → Reports (with_error_code 0 c)
  Genuine-Reports (returned cert w) h = inl (h, refl)
  Genuine-Reports (thrown e w) h = inr (refl, h)
  Genuine-Reports stopped h = tt

  convert-Genuine :
      (x509 : Bytes) (format : FileFormat) (w : World)
      → Genuine (x509_to_cert_context api debug x509 format w)
  unfolding x509_to_cert_context crypt_string_to_binary
  convert-Genuine x509 format w =
      let (sized, n, w') = api.binary_size x509 w in
      let (filled, bs, w'') = api.to_binary x509 n w' in
      ground (
        arith,
        codes.binary_size_code x509 w,
        codes.to_binary_code x509 n w',
        codes.create_code (vector n bs) w'',
      )

  -- Converting a certificate with an error code never throws: it gives a certificate and no error,
  -- or no certificate and an error, or an assertion stops it. A Windows function that fails is to
  -- leave an error code.
  pub x509_to_cert_context_ec-Reports :
      (x509 : Bytes) (format : FileFormat) (w : World)
      → Reports (x509_to_cert_context_ec api debug x509 format w)
  unfolding x509_to_cert_context_ec
  x509_to_cert_context_ec-Reports x509 format w =
      Genuine-Reports (x509_to_cert_context api debug x509 format w) (convert-Genuine x509 format w)
