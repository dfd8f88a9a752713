-- ===== src/Stream/Repeating.antt =====
-- stream.hpp, `read_some`: the count behind a record that has no data buffer.
use boost_windows_tls.Common.{
  ℕ, zero, suc, ◌≡◌, ◌≢◌, ◌⊎◌, ◌==◌, arith, Bool, false, some, List, [], Bytes, length,
  Option-cases, Bool-cases, inl, inr,
}
use boost_windows_tls.Windows.{sec_e_ok, secbuffer_data}
use boost_windows_tls.ErrorCode.{ErrorCode, failed}
use boost_windows_tls.Asio.{IsDocumented, buffer, Asio}
use boost_windows_tls.Schannel.{Handle, Schannel}
use boost_windows_tls.NextLayer.{NextLayer}
use boost_windows_tls.Decrypt.{
  SspiDecrypt, Stepped, data_needed, data_available, error, armed, deliver, decrypt, buffer_size,
}
use boost_windows_tls.Decrypt
use boost_windows_tls.Decrypt.Deliver.{keep_extra-size}
use boost_windows_tls.Stream.{ReadSome, finished, receive, handle_decrypted, read_some}
use boost_windows_tls.Stream.Counting.{Counts, get_fits, deliver_counts}

-- The count is that of the bytes delivered, or there are none and it is an old one.
abbrev pub CountsOr : ℕ → List ℕ → ℕ → Bytes → Type 0
CountsOr old sizes count delivered =
    Counts sizes count delivered ⊎ ((delivered ≡ []) × (count ≡ old))

module _ (net : Asio) (laws : IsDocumented net) (debug : Bool) {World : Type 0}
    (sspi : Schannel World) where
  deliver_keeps :
      (sizes : List ℕ) (d d' : SspiDecrypt) (copied : Bytes)
      → d.buffers.b1.buffer_type ≢ secbuffer_data
      → deliver net debug sizes d ≡ some (d', copied)
      → (copied ≡ []) × (d'.size_decrypted ≡ d.size_decrypted)
  unfolding deliver
  deliver_keeps sizes d d' copied other e = ground (arith, other)

  deliver_reports :
      (sizes : List ℕ) (d d' : SspiDecrypt) (copied : Bytes)
      → deliver net debug sizes d ≡ some (d', copied)
      → CountsOr d.size_decrypted sizes d'.size_decrypted copied
  deliver_reports sizes d d' copied e =
      elim (Bool-cases (d.buffers.b1.buffer_type == secbuffer_data)) [
        | inl typed ↦
            inl (deliver_counts net laws debug sizes d d' copied (ground (arith, typed)) e)
        | inr other ↦ inr (deliver_keeps sizes d d' copied (ground (arith, other)) e)
      ]

  decrypt_reports :
      (ctxt : Handle) (sizes : List ℕ) (d : SspiDecrypt) (w : World) (s : Stepped World)
      → decrypt sspi net debug ctxt sizes d w ≡ some s
      → ((s.state ≡ data_available)
          × CountsOr d.size_decrypted sizes s.decrypt.size_decrypted s.delivered)
        ⊎ ((s.state ≢ data_available)
            × (s.decrypt.size_decrypted ≡ d.size_decrypted)
            × (s.state ≡ error → s.decrypt.last_error ≢ sec_e_ok))
  unfolding decrypt
  decrypt_reports ctxt sizes d w s e =
      let r = sspi.decrypt_message ctxt (armed d.buffers) d.encrypted_data w in
      let d' : SspiDecrypt = record d {
        input_buffer = net.advance (buffer buffer_size) d.buffers.b0.cb_buffer;
        last_error = r.status;
        buffers = r.buffers;
        encrypted_data = r.memory;
      } in
      elim (Option-cases (deliver net debug sizes d')) [
        | inl none_left ↦ ground (arith, none_left, get_fits net laws debug sizes d.decrypted_data)
        | inr (out, delivers) ↦ ground (
          arith,
          delivers,
          get_fits net laws debug sizes d.decrypted_data,
          deliver_reports sizes d' out.0 out.1 delivers,
          keep_extra-size out.0,
        )
      ]

  module _ (layer : NextLayer World) where
    read_reports :
        (fuel : ℕ) (ctxt : Handle) (sizes : List ℕ) (ec : ErrorCode) (d : SspiDecrypt) (w : World)
        (r : ReadSome World)
        → read_some sspi net layer debug fuel ctxt sizes ec d w ≡ finished r
        → CountsOr d.size_decrypted sizes r.count r.delivered
          × (failed r.error ≡ false → r.count ≡ r.decrypt.size_decrypted)
    unfolding read_some handle_decrypted Decrypt.size_read
    read_reports zero ctxt sizes ec d w r e = absurd (ground arith)
    read_reports (suc fuel) ctxt sizes ec d w r e =
        elim (Option-cases (decrypt sspi net debug ctxt sizes d w)) [
          | inl stopped ↦ absurd (ground (arith, stopped))
          | inr (s, stepped) ↦
              let n = layer.read_some s.decrypt.input_buffer.size s.world in
              ground (
                arith,
                stepped,
                decrypt_reports ctxt sizes d w s stepped,
                read_reports fuel ctxt sizes n.error
                    (Decrypt.size_read net (length n.bytes) (receive n.bytes s.decrypt)) n.world r,
              )
        ]

    -- A blocking read behind another one that reported no error returns the number of bytes that
    -- reached the caller's buffers, which had room for them, or it delivers no bytes and returns
    -- the number that the earlier one returned.
    pub read_some_repeats :
        (fuel fuel' : ℕ) (ctxt : Handle) (sizes sizes' : List ℕ) (ec ec' : ErrorCode)
        (d : SspiDecrypt) (w v : World) (r r' : ReadSome World)
        → read_some sspi net layer debug fuel ctxt sizes ec d w ≡ finished r
        → failed r.error ≡ false
        → read_some sspi net layer debug fuel' ctxt sizes' ec' r.decrypt v ≡ finished r'
        → CountsOr r.count sizes' r'.count r'.delivered
    read_some_repeats fuel fuel' ctxt sizes sizes' ec ec' d w v r r' first fine second =
        let (reported, same) = read_reports fuel ctxt sizes ec d w r first in
        rw (same fine) (read_reports fuel' ctxt sizes' ec' r.decrypt v r' second).0
