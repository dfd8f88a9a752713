-- ===== src/Decrypt/Waiting.antt =====
-- What sspi_decrypt leaves when it asks for more data.
use boost_windows_tls.Common.{Bool, ℕ, ◌-◌, ◌≡◌, ◌⊎◌, arith, List, some}
use boost_windows_tls.Windows.{sec_e_incomplete_message}
use boost_windows_tls.Asio.{Asio, IsDocumented, buffer}
use boost_windows_tls.Schannel.{Handle, Schannel}
use boost_windows_tls.Decrypt.Deliver.{DecryptsInPlace, IsValid}
use boost_windows_tls.Decrypt.{SspiDecrypt, Stepped, data_needed, buffer_size, armed, decrypt}

-- The state of a decryption that waits for the next layer, seen from the one before the call.
pub record Waits (d d' : SspiDecrypt) : Type 0 where
  pub valid : IsValid d'
  pub same_size : d'.buffers.b0.cb_buffer ≡ d.buffers.b0.cb_buffer
  pub same_data : d'.encrypted_data ≡ d.encrypted_data
  pub at_end : d'.input_buffer.offset ≡ d.buffers.b0.cb_buffer
  pub room : d'.input_buffer.size ≡ buffer_size - d.buffers.b0.cb_buffer

module _ (net : Asio) (laws : IsDocumented net) (debug : Bool) {World : Type 0}
    (sspi : Schannel World) (in_place : DecryptsInPlace sspi) where
  pub decrypt-Waits :
      (ctxt : Handle) (sizes : List ℕ) (d : SspiDecrypt) (w : World) (s : Stepped World)
      → IsValid d
      → decrypt sspi net debug ctxt sizes d w ≡ some s
      → s.state ≡ data_needed
      → Waits d s.decrypt
        × ((d.buffers.b0.cb_buffer ≡ 0)
            ⊎ ((sspi.decrypt_message ctxt (armed d.buffers) d.encrypted_data w).status
                ≡ sec_e_incomplete_message))
  unfolding decrypt
  decrypt-Waits ctxt sizes d w s v e needs = ground (
    arith,
    laws.advance_lem (buffer buffer_size) d.buffers.b0.cb_buffer,
    in_place.untouched ctxt (armed d.buffers) d.encrypted_data w,
    in_place.front ctxt (armed d.buffers) d.encrypted_data w,
  )
