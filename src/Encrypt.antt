-- ===== src/Encrypt.antt =====
-- detail/encrypt_buffers.hpp and detail/sspi_encrypt.hpp: encrypting one message in place.
pub mod Layout
use boost_windows_tls.Common.{
  ℕ, ◌+◌, ◌%◌, ◌^◌, min, Bool, ◌==◌, ◌!=◌, if◌then◌else◌, List, [], ◌∷◌, Bytes, Array, store,
}
use boost_windows_tls.Windows.{inside, sec_e_ok, to_ulong}
use boost_windows_tls.ErrorCode.{ErrorCode, make_error_code}
use boost_windows_tls.Asio.{Asio}
use boost_windows_tls.Buffers.{SspiBuffer, Sequence4, encrypt_buffers, const_buffers}
use boost_windows_tls.Schannel.{Handle, Schannel, StreamSizes}

-- `encrypt_buffers`: the buffers, `data_` with its size, and `stream_sizes_`.
pub record EncryptBuffers : Type 0 where
  pub buffers : Sequence4
  pub message : Array
  pub message_size : ℕ
  pub stream_sizes : StreamSizes

-- The constructor.
unfoldable pub new_encrypt_buffers : EncryptBuffers
new_encrypt_buffers = record {
  buffers = encrypt_buffers;
  message = λ i. 0;
  message_size = 0;
  stream_sizes = record { cb_header = 0; cb_trailer = 0; cb_maximum_message = 0 };
}

-- `cbHeader + cbMaximumMessage + cbTrailer`, in 32 bits.
abbrev pub total : StreamSizes → ℕ
total s = (s.cb_header + s.cb_maximum_message + s.cb_trailer) % 2 ^ 32

-- Where a buffer of the sequence lies.
abbrev pub place : ℕ → ℕ → SspiBuffer → SspiBuffer
place offset size b = record b { pv_buffer = inside offset; cb_buffer = size }

-- What the call operators leave: a status and a size, the buffers, and the world.
pub record Prepared (World : Type 0) : Type 0 where
  pub status : ℕ
  pub size_consumed : ℕ
  pub buffers : EncryptBuffers
  pub world : World

pub record Encrypted (World : Type 0) : Type 0 where
  pub size_encrypted : ℕ
  pub error : ErrorCode
  pub buffers : EncryptBuffers
  pub world : World

module _ (net : Asio) where
  -- The part of `encrypt_buffers::operator()` that runs once the sizes are known.
  unfoldable pub lay_out : List Bytes → EncryptBuffers → ℕ × EncryptBuffers
  lay_out source e =
      let sizes = e.stream_sizes in
      let consumed = min (net.buffer_size source) sizes.cb_maximum_message in
      (
        consumed,
        record e {
          message = store e.message sizes.cb_header (net.buffer_copy (consumed ∷ []) source);
          buffers = record {
            b0 = place 0 sizes.cb_header e.buffers.b0;
            b1 = place sizes.cb_header (to_ulong consumed) e.buffers.b1;
            b2 = place (sizes.cb_header + consumed) sizes.cb_trailer e.buffers.b2;
            b3 = e.buffers.b3;
          };
        },
      )

module _ {World : Type 0} (sspi : Schannel World) (net : Asio) where
  -- `encrypt_buffers::operator()`, with the status that it sets.
  unfoldable pub prepare : Handle → List Bytes → EncryptBuffers → World → Prepared World
  prepare ctxt source e w =
      let known = lay_out net source e in
      let q = sspi.query_stream_sizes ctxt w in
      let sized = record e {
        stream_sizes = q.value;
        message_size = total q.value;
        message = λ i. 0;
      } in
      let asked = lay_out net source sized in
      if e.message_size == 0
      then (if q.status != sec_e_ok
          then record { status = q.status; size_consumed = 0; buffers = e; world = q.world }
          else record {
            status = sec_e_ok;
            size_consumed = asked.0;
            buffers = asked.1;
            world = q.world;
          })
      else record { status = sec_e_ok; size_consumed = known.0; buffers = known.1; world = w }

  -- `sspi_encrypt::operator()`. `ec` is set on failure and left alone otherwise.
  unfoldable pub encrypt :
      Handle → List Bytes → ErrorCode → EncryptBuffers → World → Encrypted World
  encrypt ctxt source ec e w =
      let p = prepare ctxt source e w in
      let r = sspi.encrypt_message ctxt p.buffers.buffers p.buffers.message p.world in
      let done = record p.buffers { buffers = r.buffers; message = r.memory } in
      if p.status != sec_e_ok
      then record {
        size_encrypted = 0;
        error = make_error_code p.status;
        buffers = p.buffers;
        world = p.world;
      }
      else (if r.status != sec_e_ok
          then record {
            size_encrypted = 0;
            error = make_error_code r.status;
            buffers = done;
            world = r.world;
          }
          else record {
            size_encrypted = p.size_consumed;
            error = ec;
            buffers = done;
            world = r.world;
          })

-- `encrypt.buffers` as a buffer sequence, which is what is written to the next layer.
abbrev pub wire : EncryptBuffers → List Bytes
wire e = const_buffers e.message e.buffers
