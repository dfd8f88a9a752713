-- ===== src/Stream/Delivery.antt =====
-- stream.hpp, `read_some`: its steps, seen from the abstract view in Stream/Plaintext.
use boost_windows_tls.Common.{
  ℕ, ◌+◌, ◌≤◌, ◌≡◌, ◌≢◌, refl, sym, ap, ap₂, ◌∙◌, arith, Bool, true, false, some, List, ◌++◌,
  append_assoc, Bytes, slice, store, length, ◌⊎◌, inl, inr,
}
use boost_windows_tls.Windows.{sec_e_ok}
use boost_windows_tls.Asio.{Asio, IsDocumented}
use boost_windows_tls.Schannel.{Handle, Schannel}
use boost_windows_tls.NextLayer.{NextLayer}
use boost_windows_tls.DecryptedData.{empty, available}
use boost_windows_tls.Decrypt.{
  SspiDecrypt, Stepped, DecryptState, data_needed, data_available, error, buffer_size, armed,
  decrypt,
}
use boost_windows_tls.Decrypt
use boost_windows_tls.Decrypt.Deliver.{
  DecryptsInPlace, IsValid, received, plaintext, remainder, available_of_empty,
}
use boost_windows_tls.Decrypt.Waiting.{Waits}
use boost_windows_tls.Decrypt.Records.{decrypt_opens_record, decrypt_hands_out, size_read-received}
use boost_windows_tls.Decrypt.Validity.{decrypt-IsValid}
use boost_windows_tls.Stream.{receive}
use boost_windows_tls.Stream.Plaintext.{Decodes, no_more, one_more, Protocol, Ahead, Conserves}

module _ {World : Type 0} (sspi : Schannel World) (layer : NextLayer World)
    (protocol : Protocol sspi layer) (in_place : DecryptsInPlace sspi) (net : Asio)
    (laws : IsDocumented net) (debug : Bool) where
  open protocol use {keys, open_record, incoming}

  -- The first record of the bytes ahead is the one that is received whole.
  first_record :
      (d : SspiDecrypt) (w : World) (plain first rest : Bytes) (k' : protocol.Keys)
      → Ahead protocol d w plain
      → open_record (keys w) (received d) ≡ some (first, rest, k')
      → (others : Bytes) × Decodes open_record k' (rest ++ incoming w) others
        × (plain ≡ first ++ others)
  first_record d w plain first rest k' (no_more closed e) opens =
      let longer = protocol.extends (keys w) k' (received d) (incoming w) first rest opens in cc
  first_record d w plain first rest k'
        (one_more {k' = k''} {rest = rest'} {first = first'} {others = others} opened more e)
        opens =
      let longer = protocol.extends (keys w) k' (received d) (incoming w) first rest opens in
      let same_first : first' ≡ first = cc in
      let same_rest : rest' ≡ rest ++ incoming w = cc in
      let same_keys : k'' ≡ k' = cc in
      (others, rw (sym same_rest, sym same_keys) more, rw (sym same_first) e)

  -- What is read while a step waits joins the received bytes, which still fit.
  pub read_joins :
      (d d' : SspiDecrypt) (bs : Bytes)
      → Waits d d'
      → IsValid d
      → length bs ≤ d'.input_buffer.size
      → let d'' = Decrypt.size_read net (length bs) (receive bs d') in
        (received d'' ≡ received d ++ bs) × IsValid d'' × (d''.decrypted_data ≡ d'.decrypted_data)
  unfolding Decrypt.size_read
  read_joins d d' bs waits v small =
      let at_end : d'.input_buffer.offset ≡ d'.buffers.b0.cb_buffer =
        omega (arith, waits.at_end, waits.same_size) in
      let fits : d'.buffers.b0.cb_buffer + length bs ≤ buffer_size =
        omega (arith, waits.room, waits.same_size, v.fits) in
      (
        ap
              (λ k. received (
                Decrypt.size_read net (length bs)
                  (record d' { encrypted_data = store d'.encrypted_data k bs })))
              at_end
            ∙ size_read-received net laws debug d' bs fits
            ∙ ap (◌++ bs) (ap₂ (λ a n. slice a 0 n) waits.same_data waits.same_size),
        ground (arith, fits, waits.valid),
        refl,
      )

  -- A step with data is one that hands out waiting bytes, or one that opened a record.
  decrypt_data :
      (ctxt : Handle) (sizes : List ℕ) (d : SspiDecrypt) (w : World) (s : Stepped World)
      → decrypt sspi net debug ctxt sizes d w ≡ some s
      → s.state ≡ data_available
      → (empty d.decrypted_data ≡ false)
        ⊎ (empty d.decrypted_data ≡ true)
          × (d.buffers.b0.cb_buffer ≢ 0)
          × (s.world ≡ (sspi.decrypt_message ctxt (armed d.buffers) d.encrypted_data w).world)
          × ((sspi.decrypt_message ctxt (armed d.buffers) d.encrypted_data w).status ≡ sec_e_ok)
  unfolding decrypt
  decrypt_data ctxt sizes d w s e has = ground arith

  -- A step reports an error only with an error code.
  pub decrypt_error :
      (ctxt : Handle) (sizes : List ℕ) (d : SspiDecrypt) (w : World) (s : Stepped World)
      → decrypt sspi net debug ctxt sizes d w ≡ some s
      → s.state ≡ error
      → s.decrypt.last_error ≢ sec_e_ok
  unfolding decrypt
  decrypt_error ctxt sizes d w s e failing = ground arith

  -- A step that needs data keeps the waiting bytes and changes no keys.
  pub decrypt_needs :
      (ctxt : Handle) (sizes : List ℕ) (d : SspiDecrypt) (w : World) (s : Stepped World)
      → decrypt sspi net debug ctxt sizes d w ≡ some s
      → s.state ≡ data_needed
      → (s.decrypt.decrypted_data ≡ d.decrypted_data)
        × (keys s.world ≡ keys w)
        × (incoming s.world ≡ incoming w)
  unfolding decrypt
  decrypt_needs ctxt sizes d w s e needs = ground (
    arith,
    protocol.waiting ctxt (armed d.buffers) d.encrypted_data w,
    protocol.no_input ctxt (armed d.buffers) d.encrypted_data w,
  )

  -- The view is the same from two states that agree on what it is of.
  pub Ahead-same :
      (d d' : SspiDecrypt) (w w' : World) (plain : Bytes)
      → keys w' ≡ keys w
      → received d' ++ incoming w' ≡ received d ++ incoming w
      → Ahead protocol d w plain
      → Ahead protocol d' w' plain
  Ahead-same d d' w w' plain same_keys same_bytes ahead = rw (same_keys, same_bytes) ahead

  step-IsValid :
      (ctxt : Handle) (sizes : List ℕ) (d : SspiDecrypt) (w : World) (s : Stepped World)
      → IsValid d
      → decrypt sspi net debug ctxt sizes d w ≡ some s
      → s.state ≡ data_available
      → IsValid s.decrypt
  step-IsValid ctxt sizes d w s v e has =
      let (t, e', valid) = decrypt-IsValid net laws debug sspi in_place ctxt sizes d w v in
      let z : s ≡ t = cc in rw z (valid (ground (arith, z, has)))

  hands_out-Conserves :
      (ctxt : Handle) (sizes : List ℕ) (d : SspiDecrypt) (w : World) (s : Stepped World)
      (plain : Bytes)
      → IsValid s.decrypt
      → decrypt sspi net debug ctxt sizes d w ≡ some s
      → empty d.decrypted_data ≡ false
      → Ahead protocol d w plain
      → Conserves protocol d plain s.delivered s.decrypt s.world
  hands_out-Conserves ctxt sizes d w s plain v' e waits ahead =
      let (t, e', more, taken, split, counted, same, world) =
        decrypt_hands_out net laws debug sspi in_place ctxt sizes d w waits in
      let z : s ≡ t = cc in
      (
        plain,
        rw z (Ahead-same d t.decrypt w t.world plain (ap keys world) (rw (same, world)) ahead),
        rw z (
            ap (◌++ plain) (sym split)
            ∙ append_assoc t.delivered (available t.decrypt.decrypted_data) plain),
        v',
      )

  opens-Conserves :
      (ctxt : Handle) (sizes : List ℕ) (d : SspiDecrypt) (w : World) (s : Stepped World)
      (plain : Bytes)
      → IsValid d
      → IsValid s.decrypt
      → decrypt sspi net debug ctxt sizes d w ≡ some s
      → empty d.decrypted_data ≡ true
      → d.buffers.b0.cb_buffer ≢ 0
      → s.world ≡ (sspi.decrypt_message ctxt (armed d.buffers) d.encrypted_data w).world
      → (sspi.decrypt_message ctxt (armed d.buffers) d.encrypted_data w).status ≡ sec_e_ok
      → Ahead protocol d w plain
      → Conserves protocol d plain s.delivered s.decrypt s.world
  opens-Conserves ctxt sizes d w s plain v v' e none_waits some_input world ok ahead =
      let r = sspi.decrypt_message ctxt (armed d.buffers) d.encrypted_data w in
      let (typed, opens) = protocol.opened ctxt (armed d.buffers) d.encrypted_data w ok in
      let (t, e', more, split, counted, left) =
        decrypt_opens_record net laws debug sspi in_place ctxt sizes d w v none_waits some_input ok
          typed in
      let z : s ≡ t = cc in
      let (others, later, sum_up) =
        first_record d w plain (plaintext r) (remainder r) (keys r.world) ahead opens in
      let input = protocol.no_input ctxt (armed d.buffers) d.encrypted_data w in
      let same : t.world ≡ r.world = cc in
      (
        others,
        rw z (rw (same, left, input) later),
        rw z (
            ap (◌++ plain) (available_of_empty net laws debug d none_waits)
            ∙ sum_up
            ∙ ap (◌++ others) (sym split)
            ∙ append_assoc t.delivered (available t.decrypt.decrypted_data) others),
        v',
      )

  -- Any step with data delivers the next bytes.
  pub step-Conserves :
      (ctxt : Handle) (sizes : List ℕ) (d : SspiDecrypt) (w : World) (s : Stepped World)
      (plain : Bytes)
      → IsValid d
      → decrypt sspi net debug ctxt sizes d w ≡ some s
      → s.state ≡ data_available
      → Ahead protocol d w plain
      → Conserves protocol d plain s.delivered s.decrypt s.world
  step-Conserves ctxt sizes d w s plain v e has ahead =
      let v' = step-IsValid ctxt sizes d w s v e has in
      elim (decrypt_data ctxt sizes d w s e has) [
        | inl waits ↦ hands_out-Conserves ctxt sizes d w s plain v' e waits ahead
        | inr (none_waits, some_input, world, ok) ↦
            opens-Conserves ctxt sizes d w s plain v v' e none_waits some_input world ok ahead
      ]
