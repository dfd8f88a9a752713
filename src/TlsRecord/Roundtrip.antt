-- ===== src/TlsRecord/Roundtrip.antt =====
-- test/tls_record.cpp: the reader beside a writer in network byte order.
use boost_windows_tls.Common.{ℕ, ◌/◌, ◌%◌, ◌<◌, ◌≡◌, refl, arith, some, [], ◌∷◌, ◌++◌, Bytes}
use boost_windows_tls.TlsRecord.{
  HandshakeMessage, Message, TlsRecord, change_cipher_spec, alert, application_data, handshake,
  hello_request, client_hello, server_hello, certificate, server_key_exchange, certificate_request,
  server_done, certificate_verify, client_key_exchange, finished, read_u8, read_u16,
  read_three_byte_value, read_handshake_message, read_handshake, read_message, read_record,
}

-- Numbers in network byte order, the high byte first.
abbrev pub bytes16 : ℕ → Bytes
bytes16 n = n / 256 ∷ n % 256 ∷ []

abbrev pub bytes24 : ℕ → Bytes
bytes24 n = n / 65536 ∷ n / 256 % 256 ∷ n % 256 ∷ []

-- The numbers of RFC 5246.
abbrev pub handshake_code : HandshakeMessage → ℕ
handshake_code hello_request = 0
handshake_code client_hello = 1
handshake_code server_hello = 2
handshake_code certificate = 11
handshake_code server_key_exchange = 12
handshake_code certificate_request = 13
handshake_code server_done = 14
handshake_code certificate_verify = 15
handshake_code client_key_exchange = 16
handshake_code finished = 20

abbrev pub content_code : Message → ℕ
content_code change_cipher_spec = 20
content_code alert = 21
content_code (handshake h) = 22
content_code application_data = 23

abbrev pub message_bytes : Message → Bytes
message_bytes (handshake h) = h.type ∷ bytes24 h.size
message_bytes change_cipher_spec = []
message_bytes alert = []
message_bytes application_data = []

abbrev pub record_bytes : TlsRecord → Bytes
record_bytes r = r.type ∷ (bytes16 r.version ++ (bytes16 r.size ++ message_bytes r.message))

-- The handshake part of a record says what it holds, in numbers of the right width.
abbrev pub IsConsistent : Message → Type 0
IsConsistent (handshake h) = (h.type ≡ handshake_code h.message) × (h.size < 16777216)
IsConsistent change_cipher_spec = Unit
IsConsistent alert = Unit
IsConsistent application_data = Unit

pub record IsRecord (r : TlsRecord) : Type 0 where
  pub typed : r.type ≡ content_code r.message
  pub version_fits : r.version < 65536
  pub size_fits : r.size < 65536
  pub consistent : IsConsistent r.message

read_u16_lem : (n : ℕ) (rest : Bytes) → n < 65536 → read_u16 (bytes16 n ++ rest) ≡ some (n, rest)
unfolding read_u16
read_u16_lem n rest h = ground arith

read_three_lem :
    (n : ℕ) (rest : Bytes)
    → n < 16777216
    → read_three_byte_value (bytes24 n ++ rest) ≡ some (n, rest)
unfolding read_three_byte_value
read_three_lem n rest h = ground arith

read_handshake_message_lem :
    (m : HandshakeMessage) → read_handshake_message (handshake_code m) ≡ some m
unfolding read_handshake_message
read_handshake_message_lem hello_request = refl
read_handshake_message_lem _ = refl

read_message_lem :
    (m : Message) (rest : Bytes)
    → IsConsistent m
    → read_message (content_code m) (message_bytes m ++ rest) ≡ some m
unfolding read_message read_handshake read_u8
read_message_lem (handshake h) rest c =
    ground (arith, read_three_lem h.size rest c.1, read_handshake_message_lem h.message)
read_message_lem change_cipher_spec rest c = refl
read_message_lem alert rest c = refl
read_message_lem application_data rest c = refl

-- The reader inverts writing in network byte order: of a record whose numbers have the right width
-- and say what it holds, the type, the version, the lengths and the kind of handshake message come
-- back, whatever follows.
pub read_record-record_bytes :
    (r : TlsRecord) (rest : Bytes) → IsRecord r → read_record (record_bytes r ++ rest) ≡ some r
unfolding read_record read_u8
read_record-record_bytes r rest v = ground (
  arith,
  read_u16_lem r.version (bytes16 r.size ++ (message_bytes r.message ++ rest)) v.version_fits,
  read_u16_lem r.size (message_bytes r.message ++ rest) v.size_fits,
  read_message_lem r.message rest v.consistent,
)
