-- ===== src/Decrypt.antt =====
-- detail/sspi_decrypt.hpp: decrypting what the next layer delivers.
pub mod Deliver
pub mod Validity
pub mod Records
pub mod Waiting
use boost_windows_tls.Common.{
  ℕ, ◌-◌, Bool, not, ltb, ◌==◌, ◌!=◌, if◌then◌else◌, Option, none, some, List, [], ◌∷◌, Bytes,
  Array, length, store,
}
use boost_windows_tls.Windows.{
  inside, deref, shift, add_ulong, sec_e_ok, sec_e_incomplete_message, secbuffer_empty,
  secbuffer_data, secbuffer_extra,
}
use boost_windows_tls.Asio.{Asio, MutableBuffer, buffer}
use boost_windows_tls.Buffers.{SspiBuffer, Sequence4, decrypt_buffers}
use boost_windows_tls.DecryptedData.{DecryptedDataBuffer, fresh, empty, get, fill}
use boost_windows_tls.Schannel.{Handle, Schannel}

-- `sspi_decrypt::buffer_size`
abbrev pub buffer_size : ℕ
buffer_size = 0x10000

-- `sspi_decrypt::state`
pub data DecryptState : Type 0 where
  data_needed data_available error : DecryptState

pub record SspiDecrypt : Type 0 where
  pub size_decrypted : ℕ
  pub input_buffer : MutableBuffer
  pub last_error : ℕ
  pub buffers : Sequence4
  pub encrypted_data : Array
  pub decrypted_data : DecryptedDataBuffer

-- The constructor; the arrays start with whatever they held.
unfoldable pub new_decrypt : Array → Array → SspiDecrypt
new_decrypt encrypted decrypted = record {
  size_decrypted = 0;
  input_buffer = buffer buffer_size;
  last_error = sec_e_ok;
  buffers = record decrypt_buffers {
    b0 = record { cb_buffer = 0; buffer_type = secbuffer_data; pv_buffer = inside 0 };
  };
  encrypted_data = encrypted;
  decrypted_data = fresh decrypted;
}

abbrev pub set_size : ℕ → SspiBuffer → SspiBuffer
set_size n b = record b { cb_buffer = n }

abbrev pub set_type : ℕ → SspiBuffer → SspiBuffer
set_type t b = record b { buffer_type = t }

-- The buffer types that DecryptMessage expects.
abbrev pub armed : Sequence4 → Sequence4
armed s = record {
  b0 = set_type secbuffer_data s.b0;
  b1 = set_type secbuffer_empty s.b1;
  b2 = set_type secbuffer_empty s.b2;
  b3 = set_type secbuffer_empty s.b3;
}

-- Moves what follows the decrypted record to the front of the array.
unfoldable pub keep_extra : SspiDecrypt → SspiDecrypt
keep_extra d =
    let extra = d.buffers.b3 in
    if extra.buffer_type == secbuffer_extra
    then record d {
      encrypted_data =
          store d.encrypted_data 0 (deref d.encrypted_data extra.pv_buffer extra.cb_buffer);
      buffers = record d.buffers { b0 = set_size extra.cb_buffer d.buffers.b0 };
    }
    else record d { buffers = record d.buffers { b0 = set_size 0 d.buffers.b0 } }

-- `size_read`: the next layer has written `size` bytes into `input_buffer`.
unfoldable pub size_read : Asio → ℕ → SspiDecrypt → SspiDecrypt
size_read net size d =
    let cb = add_ulong d.buffers.b0.cb_buffer size in
    record d {
      buffers = record d.buffers { b0 = set_size cb d.buffers.b0 };
      input_buffer = net.advance (buffer buffer_size) cb;
    }

module _ (net : Asio) (debug : Bool) where
  -- Copies the decrypted bytes to the caller, and keeps those that do not fit.
  unfoldable pub deliver : List ℕ → SspiDecrypt → Option (SspiDecrypt × Bytes)
  deliver sizes d =
      let data_buffer = d.buffers.b1 in
      let copied =
        net.buffer_copy sizes
          (deref d.encrypted_data data_buffer.pv_buffer data_buffer.cb_buffer ∷ []) in
      let size = length copied in
      let rest =
        deref d.encrypted_data (shift data_buffer.pv_buffer size) (data_buffer.cb_buffer - size) in
      if data_buffer.buffer_type == secbuffer_data
      then (if ltb size data_buffer.cb_buffer
          then elim (fill net debug buffer_size (rest ∷ []) d.decrypted_data) [
            | none ↦ none
            | some kept ↦ some (record d { size_decrypted = size; decrypted_data = kept }, copied)
          ]
          else some (record d { size_decrypted = size }, copied))
      else some (d, [])

-- What a call of `operator()` leaves, with the bytes that it wrote to the caller's buffers.
pub record Stepped (World : Type 0) : Type 0 where
  pub state : DecryptState
  pub decrypt : SspiDecrypt
  pub delivered : Bytes
  pub world : World

module _ {World : Type 0} (sspi : Schannel World) (net : Asio) (debug : Bool) where
  -- The part of `operator()` that runs when there are received bytes.
  unfoldable pub decrypt_received : Handle → List ℕ → SspiDecrypt → World → Option (Stepped World)
  decrypt_received ctxt sizes d w =
      let size = d.buffers.b0.cb_buffer in
      let r = sspi.decrypt_message ctxt (armed d.buffers) d.encrypted_data w in
      let d' = record d {
        input_buffer = net.advance (buffer buffer_size) size;
        last_error = r.status;
        buffers = r.buffers;
        encrypted_data = r.memory;
      } in
      if r.status == sec_e_incomplete_message
      then some (record {
        state = data_needed;
        decrypt = record d' { buffers = record r.buffers { b0 = set_size size r.buffers.b0 } };
        delivered = [];
        world = r.world;
      })
      else (if r.status != sec_e_ok
          then some (record { state = error; decrypt = d'; delivered = []; world = r.world })
          else elim (deliver net debug sizes d') [
            | none ↦ none
            | some (d'', copied) ↦ some (record {
              state = data_available;
              decrypt = keep_extra d'';
              delivered = copied;
              world = r.world;
            })
          ])

  -- `operator()`, for output buffers of these sizes. `none`: an assertion stopped the program.
  unfoldable pub decrypt : Handle → List ℕ → SspiDecrypt → World → Option (Stepped World)
  unfolding decrypt_received
  decrypt ctxt sizes d w =
      let (copied, rest) = get net sizes d.decrypted_data in
      if not (empty d.decrypted_data)
      then some (record {
        state = data_available;
        decrypt = record d { size_decrypted = length copied; decrypted_data = rest };
        delivered = copied;
        world = w;
      })
      else (if d.buffers.b0.cb_buffer == 0
          then some (record {
            state = data_needed;
            decrypt = record d { input_buffer = buffer buffer_size };
            delivered = [];
            world = w;
          })
          else decrypt_received ctxt sizes d w)
