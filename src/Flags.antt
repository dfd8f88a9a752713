-- ===== src/Flags.antt =====
-- detail/context_flags.hpp and method.hpp: the flags of the handshake calls and the protocol methods.
use boost_windows_tls.Common.{ℕ}
use Prim.Native.Nat.{bit_or}

abbrev isc_req_replay_detect : ℕ
isc_req_replay_detect = 0x4

abbrev isc_req_sequence_detect : ℕ
isc_req_sequence_detect = 0x8

abbrev isc_req_confidentiality : ℕ
isc_req_confidentiality = 0x10

abbrev isc_req_allocate_memory : ℕ
isc_req_allocate_memory = 0x100

abbrev isc_ret_extended_error : ℕ
isc_ret_extended_error = 0x4000

abbrev isc_req_stream : ℕ
isc_req_stream = 0x8000

abbrev asc_ret_extended_error : ℕ
asc_ret_extended_error = 0x8000

abbrev asc_req_stream : ℕ
asc_req_stream = 0x10000

abbrev pub client_context_flags : ℕ
client_context_flags = bit_or isc_req_sequence_detect (
    bit_or isc_req_replay_detect (
      bit_or isc_req_confidentiality
        (bit_or isc_ret_extended_error (bit_or isc_req_allocate_memory isc_req_stream))))

-- The server's flags for detection, confidentiality and memory have the values of the client's.
abbrev pub server_context_flags : ℕ
server_context_flags = bit_or isc_req_sequence_detect (
    bit_or isc_req_replay_detect (
      bit_or isc_req_confidentiality
        (bit_or asc_ret_extended_error (bit_or isc_req_allocate_memory asc_req_stream))))

-- `enum class method`
pub data Method : Type 0 where
  system_default : Method
  sslv3 sslv3_client sslv3_server : Method
  tlsv1 tlsv1_client tlsv1_server : Method
  tlsv11 tlsv11_client tlsv11_server : Method
  tlsv12 tlsv12_client tlsv12_server : Method

abbrev sp_prot_ssl3_server : ℕ
sp_prot_ssl3_server = 0x10

abbrev sp_prot_ssl3_client : ℕ
sp_prot_ssl3_client = 0x20

abbrev sp_prot_tls1_server : ℕ
sp_prot_tls1_server = 0x40

abbrev sp_prot_tls1_client : ℕ
sp_prot_tls1_client = 0x80

abbrev sp_prot_tls1_1_server : ℕ
sp_prot_tls1_1_server = 0x100

abbrev sp_prot_tls1_1_client : ℕ
sp_prot_tls1_1_client = 0x200

abbrev sp_prot_tls1_2_server : ℕ
sp_prot_tls1_2_server = 0x400

abbrev sp_prot_tls1_2_client : ℕ
sp_prot_tls1_2_client = 0x800

-- `static_cast<int>(method)`: the protocols that the credentials enable.
unfoldable pub enabled_protocols : Method → ℕ
enabled_protocols system_default = 0
enabled_protocols sslv3 = bit_or sp_prot_ssl3_server sp_prot_ssl3_client
enabled_protocols sslv3_client = sp_prot_ssl3_client
enabled_protocols sslv3_server = sp_prot_ssl3_server
enabled_protocols tlsv1 = bit_or sp_prot_tls1_server sp_prot_tls1_client
enabled_protocols tlsv1_client = sp_prot_tls1_client
enabled_protocols tlsv1_server = sp_prot_tls1_server
enabled_protocols tlsv11 = bit_or sp_prot_tls1_1_server sp_prot_tls1_1_client
enabled_protocols tlsv11_client = sp_prot_tls1_1_client
enabled_protocols tlsv11_server = sp_prot_tls1_1_server
enabled_protocols tlsv12 = bit_or sp_prot_tls1_2_server sp_prot_tls1_2_client
enabled_protocols tlsv12_client = sp_prot_tls1_2_client
enabled_protocols tlsv12_server = sp_prot_tls1_2_server
