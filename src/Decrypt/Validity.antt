-- ===== src/Decrypt/Validity.antt =====
-- detail/sspi_decrypt.hpp: the buffers of operator() and the array that they point into.
use boost_windows_tls.Common.{
  ◌!=◌, ◌==◌, ◌≢◌, ℕ, ◌≡◌, refl, sym, ap, ◌∙◌, Bool, true, Bool-cases, inl, inr, some, arith, List,
  [], length,
}
use boost_windows_tls.Asio.{buffer, Asio, IsDocumented}
use boost_windows_tls.Buffers.{Sequence4}
use boost_windows_tls.DecryptedData.{empty}
use boost_windows_tls.Schannel.{Handle, Schannel}
use boost_windows_tls.Decrypt.Deliver.{DecryptsInPlace, IsValid, deliver_total, keep_extra-IsValid}
use boost_windows_tls.Decrypt.{
  get, set_size, data_needed, decrypt_received, data_available, sec_e_ok, armed, error, Stepped,
  decrypt, keep_extra, sec_e_incomplete_message, SspiDecrypt, buffer_size,
}

module _ (net : Asio) (laws : IsDocumented net) (debug : Bool) where
  module _ {World : Type 0} (sspi : Schannel World) (in_place : DecryptsInPlace sspi) where
    -- The call on received bytes, whatever DecryptMessage answers.
    decrypt_received-IsValid :
        (ctxt : Handle) (sizes : List ℕ) (d : SspiDecrypt) (w : World)
        → IsValid d
        → empty d.decrypted_data ≡ true
        → (s : Stepped World) × (decrypt_received sspi net debug ctxt sizes d w ≡ some s)
          × (s.state ≢ error → IsValid s.decrypt)
    unfolding decrypt_received
    decrypt_received-IsValid ctxt sizes d w v e =
        let r = sspi.decrypt_message ctxt (armed d.buffers) d.encrypted_data w in
        let d' : SspiDecrypt = record d {
          input_buffer = net.advance (buffer buffer_size) d.buffers.b0.cb_buffer;
          last_error = r.status;
          buffers = r.buffers;
          encrypted_data = r.memory;
        } in
        let front = in_place.front ctxt (armed d.buffers) d.encrypted_data w in
        elim (Bool-cases (r.status == sec_e_incomplete_message)) [
          | inl more ↦ (
            record {
              state = data_needed;
              decrypt = record d' {
                buffers = record r.buffers { b0 = set_size d.buffers.b0.cb_buffer r.buffers.b0 };
              };
              delivered = [];
              world = r.world;
            },
            rw more,
            λ _. record { fits = v.fits; at_front = front ∙ v.at_front },
          )
          | inr whole ↦ elim (Bool-cases (r.status != sec_e_ok)) [
            | inl bad ↦ (
              record { state = error; decrypt = d'; delivered = []; world = r.world },
              rw (whole, bad),
              λ ne. absurd (ne refl),
            )
            | inr ok ↦
                let (d'', copied, eq, same) = deliver_total net laws debug sizes d' e λ typed.
                  let (offset, p, within) =
                    in_place.plain_inside ctxt (armed d.buffers) d.encrypted_data w typed in
                  (offset, p, omega (arith, v.fits)) in
                (
                  record {
                    state = data_available;
                    decrypt = keep_extra d'';
                    delivered = copied;
                    world = r.world;
                  },
                  ground (arith, eq),
                  λ _. keep_extra-IsValid d'' (rw same (front ∙ v.at_front)) (λ marked.
                      let (start, at, ends) =
                        in_place.extra_inside ctxt (armed d.buffers) d.encrypted_data w
                          (sym (ap (λ (b : Sequence4). b.b3.buffer_type) same) ∙ marked) in
                      rw same (omega (arith, v.fits))),
                )
          ]
        ]

    -- From received bytes at the front of the array that fit it, every call returns: no assertion
    -- stops the program. Unless it reports an error, the received bytes still start at the front of
    -- the array and fit it. The package is to decrypt in place.
    pub decrypt-IsValid :
        (ctxt : Handle) (sizes : List ℕ) (d : SspiDecrypt) (w : World)
        → IsValid d
        → (s : Stepped World) × (decrypt sspi net debug ctxt sizes d w ≡ some s)
          × (s.state ≢ error → IsValid s.decrypt)
    unfolding decrypt
    decrypt-IsValid ctxt sizes d w v = elim (Bool-cases (empty d.decrypted_data)) [
      | inl e ↦ elim (Bool-cases (d.buffers.b0.cb_buffer == 0)) [
        | inl none_received ↦ (
          record {
            state = data_needed;
            decrypt = record d { input_buffer = buffer buffer_size };
            delivered = [];
            world = w;
          },
          rw (e, none_received),
          λ _. record { fits = v.fits; at_front = v.at_front },
        )
        | inr some_received ↦ rw (e, some_received) (decrypt_received-IsValid ctxt sizes d w v e)
      ]
      | inr waiting ↦
          let (copied, rest) = get net sizes d.decrypted_data in
          (
            record {
              state = data_available;
              decrypt = record d { size_decrypted = length copied; decrypted_data = rest };
              delivered = copied;
              world = w;
            },
            rw waiting,
            λ _. record { fits = v.fits; at_front = v.at_front },
          )
    ]
