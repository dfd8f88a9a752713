-- ===== src/Stream/Counting.antt =====
-- The count that `read_some` returns.
use boost_windows_tls.Common.{
  [], ◌∷◌, length-take, ◌≤◌, Bool, ℕ, zero, suc, ◌≡◌, arith, some, List, Bytes, length,
  Option-cases, inl, inr,
}
use boost_windows_tls.Windows.{sec_e_ok, secbuffer_data}
use boost_windows_tls.ErrorCode.{ErrorCode}
use boost_windows_tls.Asio.{concat, sum, IsDocumented, buffer, Asio}
use boost_windows_tls.Buffers.{const_buffer, Sequence4}
use boost_windows_tls.DecryptedData.{DecryptedDataBuffer, get, available}
use boost_windows_tls.Schannel.{Handle, Schannel}
use boost_windows_tls.NextLayer.{NextLayer}
use boost_windows_tls.Decrypt.{
  SspiDecrypt, Stepped, DecryptState, data_needed, data_available, error, armed, keep_extra,
  deliver, decrypt, buffer_size,
}
use boost_windows_tls.Decrypt
use boost_windows_tls.Decrypt.Deliver.{keep_extra-size}
use boost_windows_tls.Stream.{ReadSome, Run, finished, receive, handle_decrypted, read_some}

-- A record that decrypts has a data buffer, be it an empty one.
pub record AlwaysHasData {World : Type 0} (sspi : Schannel World) : Type 0 where
  pub typed :
      (h : Handle) (s : Sequence4) (a : ℕ → ℕ) (w : World)
      → (sspi.decrypt_message h s a w).status ≡ sec_e_ok
      → (sspi.decrypt_message h s a w).buffers.b1.buffer_type ≡ secbuffer_data

-- The count is that of the bytes that reached the caller's buffers, which have room for them.
abbrev pub Counts : List ℕ → ℕ → Bytes → Type 0
Counts sizes count delivered = (count ≡ length delivered) × (length delivered ≤ sum sizes)

module _ (net : Asio) (laws : IsDocumented net) (debug : Bool) where
  copied_fits :
      (sizes : List ℕ) (source : List Bytes) → length (net.buffer_copy sizes source) ≤ sum sizes
  copied_fits sizes source =
      rw laws.buffer_copy_lem (omega (arith, length-take (sum sizes) (concat source)))

  pub get_fits : (sizes : List ℕ) (d : DecryptedDataBuffer) → length (get net sizes d).0 ≤ sum sizes
  unfolding get
  get_fits sizes d = copied_fits sizes (available d ∷ [])

  pub deliver_counts :
      (sizes : List ℕ) (d d' : SspiDecrypt) (copied : Bytes)
      → d.buffers.b1.buffer_type ≡ secbuffer_data
      → deliver net debug sizes d ≡ some (d', copied)
      → Counts sizes d'.size_decrypted copied
  unfolding deliver
  deliver_counts sizes d d' copied t e =
      ground (arith, copied_fits sizes (const_buffer d.encrypted_data d.buffers.b1 ∷ []))

module _ (net : Asio) (laws : IsDocumented net) (debug : Bool) {World : Type 0}
    (sspi : Schannel World) (has : AlwaysHasData sspi) where
  decrypt_counts :
      (ctxt : Handle) (sizes : List ℕ) (d : SspiDecrypt) (w : World) (s : Stepped World)
      → decrypt sspi net debug ctxt sizes d w ≡ some s
      → s.state ≡ data_available
      → Counts sizes s.decrypt.size_decrypted s.delivered
  unfolding decrypt
  decrypt_counts ctxt sizes d w s e available =
      let r = sspi.decrypt_message ctxt (armed d.buffers) d.encrypted_data w in
      let d' : SspiDecrypt = record d {
        input_buffer = net.advance (buffer buffer_size) d.buffers.b0.cb_buffer;
        last_error = r.status;
        buffers = r.buffers;
        encrypted_data = r.memory;
      } in
      let t = has.typed ctxt (armed d.buffers) d.encrypted_data w in
      elim (Option-cases (deliver net debug sizes d')) [
        | inl none_left ↦ ground (arith, get_fits net laws debug sizes d.decrypted_data)
        | inr (out, delivers) ↦ ground (
          arith,
          t,
          get_fits net laws debug sizes d.decrypted_data,
          deliver_counts net laws debug sizes d' out.0 out.1,
          keep_extra-size out.0,
        )
      ]

  module _ (layer : NextLayer World) where
    handle_decrypted_counts :
        (sizes : List ℕ) (rest : ErrorCode → SspiDecrypt → World → Run (ReadSome World))
        (ec : ErrorCode) (s : Stepped World) (r : ReadSome World)
        → (s.state ≡ data_available → Counts sizes s.decrypt.size_decrypted s.delivered)
        → ((ec' : ErrorCode) (d' : SspiDecrypt) (w' : World)
            → rest ec' d' w' ≡ finished r
            → Counts sizes r.count r.delivered)
        → handle_decrypted sspi net layer debug rest ec s ≡ finished r
        → Counts sizes r.count r.delivered
    unfolding handle_decrypted
    handle_decrypted_counts sizes rest ec s r now later e =
        let n = layer.read_some s.decrypt.input_buffer.size s.world in
        ground (
          arith,
          later n.error (Decrypt.size_read net (length n.bytes) (receive n.bytes s.decrypt))
              n.world,
        )

    -- A blocking read returns the number of bytes that reached the caller's buffers, however it
    -- ends, and they had room for them, if the package gives a data buffer for every record that it
    -- decrypts.
    pub read_some_counts :
        (fuel : ℕ) (ctxt : Handle) (sizes : List ℕ) (ec : ErrorCode) (d : SspiDecrypt) (w : World)
        (r : ReadSome World)
        → read_some sspi net layer debug fuel ctxt sizes ec d w ≡ finished r
        → Counts sizes r.count r.delivered
    unfolding read_some
    read_some_counts zero ctxt sizes ec d w r e = ground arith
    read_some_counts (suc fuel) ctxt sizes ec d w r e =
        elim (Option-cases (decrypt sspi net debug ctxt sizes d w)) [
          | inl stopped ↦ ground (arith, stopped)
          | inr (s, stepped) ↦
              handle_decrypted_counts sizes (read_some sspi net layer debug fuel ctxt sizes) ec s r
                (decrypt_counts ctxt sizes d w s stepped)
                (λ ec' d' w'. read_some_counts fuel ctxt sizes ec' d' w' r)
                (ground (arith, stepped))
        ]
