-- ===== src/Certificate.antt =====
-- certificate.hpp and file_format.hpp: certificates and private keys.
pub mod Crypto
pub mod Outcomes
use boost_windows_tls.Common.{ℕ, Bool, true, false, not, ◌==◌, ◌!=◌, if◌then◌else◌, Bytes, length}
use boost_windows_tls.Windows.{aborts}
use boost_windows_tls.ErrorCode.{ErrorCode, no_error, get_last_error}
use boost_windows_tls.Schannel.{CertContext}
use Crypto.{
  CryptApi, pkcs_private_key_info, pkcs_rsa_private_key, new_keyset, delete_keyset, Call, returned,
  thrown, stopped, throw_last, and_then, crypt_string_to_binary, crypt_decode_object_ex,
}

-- `enum class file_format`
pub data FileFormat : Type 0 where
  asn1 pem : FileFormat

abbrev is_pem : FileFormat → Bool
is_pem asn1 = false
is_pem pem = true

-- The overloads with an error code: what is thrown becomes the code, beside a value in place of the
-- result; otherwise the code is cleared.
abbrev pub with_error_code {ℓ} :
    {World : Type 0} {A : Type ℓ} → A → Call World A → Call World (A × ErrorCode)
with_error_code fallback (returned a w) = returned (a, no_error) w
with_error_code fallback (thrown e w) = returned (fallback, e) w
with_error_code fallback stopped = stopped

module _ {World : Type 0} (api : CryptApi World) (debug : Bool) where
  -- CertCreateCertificateContext, and the exception if it fails.
  abbrev create : Bytes → World → Call World CertContext
  create bytes w =
      let (cert, w') = api.create_certificate bytes w in
      if cert != 0 then returned cert w' else throw_last api w'

  -- `x509_to_cert_context(x509, format)`
  unfoldable pub x509_to_cert_context : Bytes → FileFormat → World → Call World CertContext
  x509_to_cert_context x509 format w =
      if aborts debug (is_pem format)
      then stopped
      else and_then (crypt_string_to_binary api x509 w) create

  -- `x509_to_cert_context(x509, format, ec)`
  unfoldable pub x509_to_cert_context_ec :
      Bytes → FileFormat → World → Call World (CertContext × ErrorCode)
  x509_to_cert_context_ec x509 format w = with_error_code 0 (x509_to_cert_context x509 format w)

  -- The part of `import_private_key` that holds the context and the key. Both are released whether or
  -- not the import succeeds, the key first; the last error is read before.
  unfoldable pub import_into : Bytes → Bytes → World → Call World (Unit {0})
  import_into name key w =
      let (acquired, context, w') = api.acquire_context name new_keyset w in
      let (imported, handle, w'') = api.import_key context key w' in
      let released = api.release_context context (api.destroy_key handle w'') in
      if acquired
      then (if imported
          then returned tt released
          else thrown (get_last_error (api.last_error w'')) released)
      else throw_last api w'

  -- `import_private_key(private_key, format, name)`
  unfoldable pub import_private_key : Bytes → FileFormat → Bytes → World → Call World (Unit {0})
  import_private_key private_key format name w =
      let info_of =
        λ (text : Bytes) (w' : World). crypt_decode_object_ex api pkcs_private_key_info text w' in
      let rsa_of = λ (info : Bytes) (w' : World).
        if aborts debug (api.is_rsa info)
        then stopped
        else crypt_decode_object_ex api pkcs_rsa_private_key (api.key_blob info) w' in
      if aborts debug (is_pem format)
      then stopped
      else and_then (and_then (and_then (crypt_string_to_binary api private_key w) info_of) rsa_of)
          (import_into name)

  -- `import_private_key(private_key, format, name, ec)`
  unfoldable pub import_private_key_ec :
      Bytes → FileFormat → Bytes → World → Call World (Unit {0} × ErrorCode)
  import_private_key_ec private_key format name w =
      with_error_code tt (import_private_key private_key format name w)

  -- `delete_private_key(name)`
  unfoldable pub delete_private_key : Bytes → World → Call World (Unit {0})
  delete_private_key name w =
      let (deleted, context, w') = api.acquire_context name delete_keyset w in
      if deleted then returned tt w' else throw_last api w'

  -- `delete_private_key(name, ec)`
  unfoldable pub delete_private_key_ec : Bytes → World → Call World (Unit {0} × ErrorCode)
  delete_private_key_ec name w = with_error_code tt (delete_private_key name w)

  -- `assign_private_key(cert, name)`, with the conversion to wide characters.
  unfoldable pub assign_private_key :
      (Bytes → ℕ × Bytes) → CertContext → Bytes → World → Call World (Unit {0})
  assign_private_key mbstowcs cert name w =
      let (size_converted, wide) = mbstowcs name in
      let (assigned, w') = api.set_key_container cert wide w in
      if aborts debug (size_converted == length name)
      then stopped
      else (if assigned then returned tt w' else throw_last api w')

  -- `assign_private_key(cert, name, ec)`
  unfoldable pub assign_private_key_ec :
      (Bytes → ℕ × Bytes) → CertContext → Bytes → World → Call World (Unit {0} × ErrorCode)
  assign_private_key_ec mbstowcs cert name w =
      with_error_code tt (assign_private_key mbstowcs cert name w)
