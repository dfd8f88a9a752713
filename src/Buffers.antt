-- ===== src/Buffers.antt =====
-- sspi_buffer_sequence.hpp, decrypt_buffers.hpp, encrypt_buffers.hpp (its constructor),
-- handshake_input_buffers.hpp, handshake_output_buffers.hpp and shutdown_buffers.hpp: the sequences
-- of SecBuffers that the security package takes. A sequence of N buffers is a record of N.
use boost_windows_tls.Common.{ℕ, List, [], ◌∷◌, Bytes, Array}
use boost_windows_tls.Windows.{
  Pointer, null, external, deref, secbuffer_empty, secbuffer_data, secbuffer_token,
  secbuffer_stream_header, secbuffer_stream_trailer, schannel_shutdown,
}

-- `sspi_buffer`, which is a SecBuffer.
pub record SspiBuffer : Type 0 where
  pub cb_buffer : ℕ
  pub buffer_type : ℕ
  pub pv_buffer : Pointer

-- `sspi_buffer(type)`
abbrev pub sspi_buffer : ℕ → SspiBuffer
sspi_buffer type = record { cb_buffer = 0; buffer_type = type; pv_buffer = null }

-- `operator net::const_buffer`: the bytes that the buffer stands for.
abbrev pub const_buffer : Array → SspiBuffer → Bytes
const_buffer a b = deref a b.pv_buffer b.cb_buffer

-- `sspi_buffer_sequence<4>`
pub record Sequence4 : Type 0 where
  pub b0 : SspiBuffer
  pub b1 : SspiBuffer
  pub b2 : SspiBuffer
  pub b3 : SspiBuffer

-- `sspi_buffer_sequence<2>`
pub record Sequence2 : Type 0 where
  pub b0 : SspiBuffer
  pub b1 : SspiBuffer

-- The sequence from `begin()` to `end()`, as Asio reads it.
abbrev pub const_buffers : Array → Sequence4 → List Bytes
const_buffers a s =
    const_buffer a s.b0 ∷ const_buffer a s.b1 ∷ const_buffer a s.b2 ∷ const_buffer a s.b3 ∷ []

-- `decrypt_buffers`
abbrev pub decrypt_buffers : Sequence4
decrypt_buffers = record {
  b0 = sspi_buffer secbuffer_data;
  b1 = sspi_buffer secbuffer_empty;
  b2 = sspi_buffer secbuffer_empty;
  b3 = sspi_buffer secbuffer_empty;
}

-- `encrypt_buffers`
abbrev pub encrypt_buffers : Sequence4
encrypt_buffers = record {
  b0 = sspi_buffer secbuffer_stream_header;
  b1 = sspi_buffer secbuffer_data;
  b2 = sspi_buffer secbuffer_stream_trailer;
  b3 = sspi_buffer secbuffer_empty;
}

-- `handshake_input_buffers`
abbrev pub handshake_input_buffers : Sequence2
handshake_input_buffers = record {
  b0 = sspi_buffer secbuffer_token;
  b1 = sspi_buffer secbuffer_empty;
}

-- `handshake_output_buffers`, the only buffer of the sequence.
abbrev pub handshake_output_buffers : SspiBuffer
handshake_output_buffers = sspi_buffer secbuffer_token

-- `shutdown_buffers`: a token that points at the four bytes of SCHANNEL_SHUTDOWN, low byte first.
abbrev pub shutdown_buffers : SspiBuffer
shutdown_buffers = record {
  cb_buffer = 4;
  buffer_type = secbuffer_token;
  pv_buffer = external (record { address = 1; bytes = schannel_shutdown ∷ 0 ∷ 0 ∷ 0 ∷ [] });
}
