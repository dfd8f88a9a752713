-- ===== src/TlsRecord.antt =====
-- test/tls_record.hpp and test/tls_record.cpp: the reader of TLS record headers that the tests use to
-- look at the handshake. The machine is little-endian, as Windows machines are.
pub mod Roundtrip
use boost_windows_tls.Common.{
  ℕ, ◌+◌, ◌*◌, ◌/◌, ◌%◌, ◌==◌, if◌then◌else◌, Option, none, some, [], ◌∷◌, Bytes,
}

-- `tls_handshake::message_type`: the structs hold nothing yet.
pub data HandshakeMessage : Type 0 where
  hello_request client_hello server_hello certificate server_key_exchange : HandshakeMessage
  certificate_request server_done certificate_verify client_key_exchange finished : HandshakeMessage

-- `tls_handshake`; the type is kept as its number.
pub record TlsHandshake : Type 0 where
  pub type : ℕ
  pub size : ℕ
  pub message : HandshakeMessage

-- `tls_record::message_type`
pub data Message : Type 0 where
  change_cipher_spec alert application_data : Message
  handshake : TlsHandshake → Message

-- `tls_record`; the type and the version are kept as their numbers.
pub record TlsRecord : Type 0 where
  pub type : ℕ
  pub version : ℕ
  pub size : ℕ
  pub message : Message

-- `ntohs` and `ntohl`, which `net_to_host` calls: the bytes of a word in reverse order.
abbrev swap16 : ℕ → ℕ
swap16 n = n % 256 * 256 + n / 256

abbrev swap32 : ℕ → ℕ
swap32 n = n % 256 * 16777216 + n / 256 % 256 * 65536 + n / 65536 % 256 * 256 + n / 16777216

-- The word that a load reads at four bytes.
abbrev load32 : ℕ → ℕ → ℕ → ℕ → ℕ
load32 a b c d = a + b * 256 + c * 65536 + d * 16777216

infixl 5 ◌>>=◌
abbrev ◌>>=◌ {ℓ κ} : {A : Type ℓ} {B : Type κ} → Option A → (A → Option B) → Option B
none >>= f = none
some a >>= f = f a

-- `read_value<std::uint8_t>`: the value and the buffer behind it. `none`: the buffer is too short, which
-- the assertion rules out.
unfoldable pub read_u8 : Bytes → Option (ℕ × Bytes)
read_u8 (a ∷ rest) = some (a, rest)
read_u8 [] = none

-- `read_value<std::uint16_t>`
unfoldable pub read_u16 : Bytes → Option (ℕ × Bytes)
read_u16 (a ∷ b ∷ rest) = some (swap16 (a + b * 256), rest)
read_u16 (a ∷ []) = none
read_u16 [] = none

-- `read_three_byte_value`: the bytes are copied behind a zero byte.
unfoldable pub read_three_byte_value : Bytes → Option (ℕ × Bytes)
read_three_byte_value (a ∷ b ∷ c ∷ rest) = some (swap32 (load32 0 a b c), rest)
read_three_byte_value (a ∷ b ∷ []) = none
read_three_byte_value (a ∷ []) = none
read_three_byte_value [] = none

-- `read_message(tls_handshake::handshake_type, ...)`. `none`: no enumerator has the number.
unfoldable pub read_handshake_message : ℕ → Option HandshakeMessage
read_handshake_message t =
    if t == 0x00
    then some hello_request
    else (if t == 0x01
        then some client_hello
        else (if t == 0x02
            then some server_hello
            else (if t == 0x0b
                then some certificate
                else (if t == 0x0c
                    then some server_key_exchange
                    else (if t == 0x0d
                        then some certificate_request
                        else (if t == 0x0e
                            then some server_done
                            else (if t == 0x0f
                                then some certificate_verify
                                else (if t == 0x10
                                    then some client_key_exchange
                                    else (if t == 0x14 then some finished else none)))))))))

-- The constructor of `tls_handshake`.
unfoldable pub read_handshake : Bytes → Option TlsHandshake
read_handshake data_ = do
  (t, sized) ← read_u8 data_
  (n, rest) ← read_three_byte_value sized
  m ← read_handshake_message t
  some (record { type = t; size = n; message = m })

-- `read_message(tls_record::record_type, ...)`. `none`: no enumerator has the number.
unfoldable pub read_message : ℕ → Bytes → Option Message
read_message t data_ =
    if t == 0x14
    then some change_cipher_spec
    else (if t == 0x15
        then some alert
        else (if t == 0x16
            then (do h ← read_handshake data_; some (handshake h))
            else (if t == 0x17 then some application_data else none)))

-- The constructor of `tls_record`.
unfoldable pub read_record : Bytes → Option TlsRecord
read_record data_ = do
  (t, versioned) ← read_u8 data_
  (v, sized) ← read_u16 versioned
  (n, rest) ← read_u16 sized
  m ← read_message t rest
  some (record { type = t; version = v; size = n; message = m })
