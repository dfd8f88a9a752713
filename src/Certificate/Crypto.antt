-- ===== src/Certificate/Crypto.antt =====
-- detail/win32_crypto.hpp, over the cryptographic functions of Windows as an interface. A call may
-- throw, or an assertion may stop it.
use boost_windows_tls.Common.{
  ℕ, zero, suc, ◌-◌, Bool, if◌then◌else◌, [], ◌∷◌, ◌++◌, Bytes, length, take,
}
use boost_windows_tls.ErrorCode.{ErrorCode, get_last_error}
use boost_windows_tls.Schannel.{CertContext}

-- The structure types that CryptDecodeObjectEx decodes.
pub data DecodeType : Type 0 where
  pkcs_private_key_info pkcs_rsa_private_key : DecodeType

-- The keyset flags of CryptAcquireContextA: CRYPT_NEWKEYSET | CRYPT_SILENT, and CRYPT_DELETEKEYSET.
pub data KeysetFlags : Type 0 where
  new_keyset delete_keyset : KeysetFlags

-- Handles are numbers, 0 being none. Of a call that fills a buffer the bytes that it wrote are given.
pub record CryptApi (World : Type 0) : Type 0 where
  pub last_error : World → ℕ
  -- CryptStringToBinaryA without and with a buffer of the given size
  pub binary_size : Bytes → World → Bool × ℕ × World
  pub to_binary : Bytes → ℕ → World → Bool × Bytes × World
  -- CryptDecodeObjectEx, likewise
  pub decoded_size : DecodeType → Bytes → World → Bool × ℕ × World
  pub decode : DecodeType → Bytes → ℕ → World → Bool × Bytes × World
  -- the fields of a decoded CRYPT_PRIVATE_KEY_INFO
  pub is_rsa : Bytes → Bool
  pub key_blob : Bytes → Bytes
  pub create_certificate : Bytes → World → CertContext × World
  pub acquire_context : Bytes → KeysetFlags → World → Bool × ℕ × World
  pub release_context : ℕ → World → World
  pub import_key : ℕ → Bytes → World → Bool × ℕ × World
  pub destroy_key : ℕ → World → World
  -- CertSetCertificateContextProperty with the name of the key's container
  pub set_key_container : CertContext → Bytes → World → Bool × World

-- What a call leaves: a value, an exception, or an assertion that failed.
pub data Call {ℓ} (World : Type 0) (A : Type ℓ) : Type ℓ where
  returned : A → World → Call World A
  thrown : ErrorCode → World → Call World A
  stopped : Call World A

-- `std::vector<BYTE> data(n)` after `bs` was written to its front.
abbrev zeros : ℕ → Bytes
zeros zero = []
zeros (suc n) = 0 ∷ zeros n

abbrev pub vector : ℕ → Bytes → Bytes
vector n bs = take n bs ++ zeros (n - length bs)

module _ {World : Type 0} (api : CryptApi World) where
  -- `throw_last_error`
  abbrev pub throw_last {ℓ} : {A : Type ℓ} → World → Call World A
  throw_last w = thrown (get_last_error (api.last_error w)) w

  -- `crypt_string_to_binary`
  unfoldable pub crypt_string_to_binary : Bytes → World → Call World Bytes
  crypt_string_to_binary text w =
      let (sized, n, w') = api.binary_size text w in
      let (filled, bs, w'') = api.to_binary text n w' in
      if sized
      then (if filled then returned (vector n bs) w'' else throw_last w'')
      else throw_last w'

  -- `crypt_decode_object_ex`
  unfoldable pub crypt_decode_object_ex : DecodeType → Bytes → World → Call World Bytes
  crypt_decode_object_ex type object w =
      let (sized, n, w') = api.decoded_size type object w in
      let (filled, bs, w'') = api.decode type object n w' in
      if sized
      then (if filled then returned (vector n bs) w'' else throw_last w'')
      else throw_last w'

-- The step after a call that returned.
abbrev pub and_then {ℓ} :
    {World : Type 0} {A B : Type ℓ} → Call World A → (A → World → Call World B) → Call World B
and_then (returned a w) f = f a w
and_then (thrown e w) f = thrown e w
and_then stopped f = stopped
