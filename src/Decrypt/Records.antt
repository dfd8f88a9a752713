-- ===== src/Decrypt/Records.antt =====
-- What becomes of the bytes that sspi_decrypt receives and decrypts.
use boost_windows_tls.Common.{
  slice-store_end, store, false, ◌⊎◌, ap₂, ◌==◌, ◌≢◌, ℕ, ◌+◌, ◌-◌, ◌≤◌, ◌≡◌, refl, sym, ap, ◌∙◌,
  Bool, true, Bool-cases, inl, inr, some, arith, List, [], ◌++◌, Bytes, length, take, slice,
  length-slice,
}
use boost_windows_tls.Windows.{secbuffer_data}
use boost_windows_tls.Asio.{buffer, Asio, IsDocumented, sum}
use boost_windows_tls.Buffers.{Sequence4}
use boost_windows_tls.DecryptedData.{empty, available}
use boost_windows_tls.DecryptedData.Laws.{get-available}
use boost_windows_tls.Schannel.{Handle, Schannel}
use boost_windows_tls.Decrypt.Deliver.{
  DecryptsInPlace, IsValid, received, plaintext, remainder, extra_bytes, deliver-Delivers,
  keep_extra-decrypted, keep_extra-size, keep_extra-received,
}
use boost_windows_tls.Decrypt.{
  add_ulong, size_read, get, set_size, data_needed, data_available, sec_e_ok, armed, Stepped,
  decrypt, keep_extra, sec_e_incomplete_message, SspiDecrypt, buffer_size,
}

module _ (net : Asio) (laws : IsDocumented net) (debug : Bool) where
  module _ {World : Type 0} (sspi : Schannel World) (in_place : DecryptsInPlace sspi) where
    -- With no decrypted bytes waiting, received bytes that fit the array and hold a whole record
    -- with data, and a package that decrypts in place: the caller gets a prefix of the record's
    -- plaintext and its length as the count, the rest of the plaintext waits, and the bytes behind
    -- the record are what remains to be decrypted.
    pub decrypt_opens_record :
        (ctxt : Handle) (sizes : List ℕ) (d : SspiDecrypt) (w : World)
        → IsValid d
        → empty d.decrypted_data ≡ true
        → d.buffers.b0.cb_buffer ≢ 0
        → let r = sspi.decrypt_message ctxt (armed d.buffers) d.encrypted_data w in
          r.status ≡ sec_e_ok
          → r.buffers.b1.buffer_type ≡ secbuffer_data
          → (s : Stepped World) × (decrypt sspi net debug ctxt sizes d w ≡ some s)
            × (s.state ≡ data_available)
            × (s.delivered ++ available s.decrypt.decrypted_data ≡ plaintext r)
            × (s.decrypt.size_decrypted ≡ length s.delivered)
            × (received s.decrypt ≡ remainder r)
    unfolding decrypt
    decrypt_opens_record ctxt sizes d w v e ne ok typed =
        let (offset, p, within) =
          in_place.plain_inside ctxt (armed d.buffers) d.encrypted_data w typed in
        let r = sspi.decrypt_message ctxt (armed d.buffers) d.encrypted_data w in
        let d' : SspiDecrypt = record d {
          input_buffer = net.advance (buffer buffer_size) d.buffers.b0.cb_buffer;
          last_error = r.status;
          buffers = r.buffers;
          encrypted_data = r.memory;
        } in
        let (d'', copied, eq, out) =
          deliver-Delivers net laws debug sizes d' offset e typed p (omega (arith, v.fits)) in
        let same = out.same_buffers in
        (
          record {
            state = data_available;
            decrypt = keep_extra d'';
            delivered = copied;
            world = r.world;
          },
          ground (arith, ok, typed, eq),
          refl,
          ap (λ k. copied ++ available k) (keep_extra-decrypted d'') ∙ out.all_kept ∙ rw p,
          keep_extra-size d'' ∙ out.counted,
          keep_extra-received d'' (λ marked.
                let (start, at, _) =
                  in_place.extra_inside ctxt (armed d.buffers) d.encrypted_data w
                    (sym (ap (λ (b : Sequence4). b.b3.buffer_type) same) ∙ marked) in
                (start, ap (λ (b : Sequence4). b.b3.pv_buffer) same ∙ at))
              ∙ ap₂ extra_bytes same out.same_data,
        )

    -- With no decrypted bytes waiting, and no received bytes or only an incomplete record of them:
    -- the received bytes stay, nothing is delivered, and the next layer is to write right behind
    -- them, into all that is free. The received bytes are to fit the array and the package to
    -- decrypt in place.
    pub decrypt_waits :
        (ctxt : Handle) (sizes : List ℕ) (d : SspiDecrypt) (w : World)
        → IsValid d
        → empty d.decrypted_data ≡ true
        → (d.buffers.b0.cb_buffer ≡ 0)
          ⊎ ((sspi.decrypt_message ctxt (armed d.buffers) d.encrypted_data w).status
              ≡ sec_e_incomplete_message)
        → (s : Stepped World) × (decrypt sspi net debug ctxt sizes d w ≡ some s)
          × (s.state ≡ data_needed)
          × (s.delivered ≡ [])
          × (received s.decrypt ≡ received d)
          × (s.decrypt.input_buffer.offset ≡ length (received d))
          × (s.decrypt.input_buffer.size ≡ buffer_size - length (received d))
    unfolding decrypt
    decrypt_waits ctxt sizes d w v e waits = elim (Bool-cases (d.buffers.b0.cb_buffer == 0)) [
      | inl zero_left ↦
          let z : d.buffers.b0.cb_buffer ≡ 0 = ground arith in
          (
            record {
              state = data_needed;
              decrypt = record d { input_buffer = buffer buffer_size };
              delivered = [];
              world = w;
            },
            rw (e, zero_left),
            refl,
            refl,
            refl,
            rw z,
            rw z,
          )
      | inr some_left ↦
          let r = sspi.decrypt_message ctxt (armed d.buffers) d.encrypted_data w in
          let inc : r.status ≡ sec_e_incomplete_message = ground arith in
          let kept = in_place.untouched ctxt (armed d.buffers) d.encrypted_data w inc in
          let at = laws.advance_lem (buffer buffer_size) d.buffers.b0.cb_buffer in
          let len = length-slice d.encrypted_data 0 d.buffers.b0.cb_buffer in
          (
            record {
              state = data_needed;
              decrypt = record d {
                input_buffer = net.advance (buffer buffer_size) d.buffers.b0.cb_buffer;
                last_error = r.status;
                buffers = record r.buffers { b0 = set_size d.buffers.b0.cb_buffer r.buffers.b0 };
                encrypted_data = r.memory;
              };
              delivered = [];
              world = r.world;
            },
            ground (arith, inc),
            refl,
            refl,
            rw kept,
            rw (at, len) (omega (arith, v.fits)),
            rw (at, len),
          )
    ]

    -- While decrypted bytes wait, they are handed out in order, as many as the caller has room for;
    -- the count is that of the bytes, and neither the received bytes nor the world change: the
    -- security package is not asked.
    pub decrypt_hands_out :
        (ctxt : Handle) (sizes : List ℕ) (d : SspiDecrypt) (w : World)
        → empty d.decrypted_data ≡ false
        → (s : Stepped World) × (decrypt sspi net debug ctxt sizes d w ≡ some s)
          × (s.state ≡ data_available)
          × (s.delivered ≡ take (sum sizes) (available d.decrypted_data))
          × (s.delivered ++ available s.decrypt.decrypted_data ≡ available d.decrypted_data)
          × (s.decrypt.size_decrypted ≡ length s.delivered)
          × (received s.decrypt ≡ received d)
          × (s.world ≡ w)
    unfolding decrypt
    decrypt_hands_out ctxt sizes d w waiting =
        let (copied, rest) = get net sizes d.decrypted_data in
        let (prefix, all) = get-available net laws sizes d.decrypted_data in
        (
          record {
            state = data_available;
            decrypt = record d { size_decrypted = length copied; decrypted_data = rest };
            delivered = copied;
            world = w;
          },
          rw waiting,
          refl,
          prefix,
          all,
          refl,
          refl,
          refl,
        )

  -- `size_read`: bytes that were written at the end of the received ones join them, if they fit the
  -- array.
  pub size_read-received :
      (d : SspiDecrypt) (bs : Bytes)
      → d.buffers.b0.cb_buffer + length bs ≤ buffer_size
      → received (
          size_read net
            (length bs)
            (record d { encrypted_data = store d.encrypted_data d.buffers.b0.cb_buffer bs }))
        ≡ received d ++ bs
  unfolding size_read
  size_read-received d bs h =
      let n : add_ulong d.buffers.b0.cb_buffer (length bs) ≡ d.buffers.b0.cb_buffer + length bs =
        omega arith in
      let z : 0 + d.buffers.b0.cb_buffer ≡ d.buffers.b0.cb_buffer = omega arith in
      rw n (
        ap (λ k. slice (store d.encrypted_data k bs) 0 (d.buffers.b0.cb_buffer + length bs)) (sym z)
        ∙ slice-store_end d.encrypted_data 0 d.buffers.b0.cb_buffer bs)
