-- ===== src/Stream/Refinement.antt =====
-- stream.hpp, `read_some`, seen from the abstract view in Stream/Plaintext.
use boost_windows_tls.Common.{
  ℕ, zero, suc, ◌≡◌, refl, sym, ap, ◌∙◌, arith, Bool, false, some, List, ◌++◌, append_assoc, Bytes,
  length, Bool-cases, Option-cases, inl, inr,
}
use boost_windows_tls.ErrorCode.{ErrorCode, failed}
use boost_windows_tls.Asio.{Asio, IsDocumented}
use boost_windows_tls.Schannel.{Handle, Schannel}
use boost_windows_tls.NextLayer.{NextLayer, IsStream}
use boost_windows_tls.DecryptedData.{available}
use boost_windows_tls.Decrypt.{
  SspiDecrypt, Stepped, DecryptState, data_needed, data_available, error, buffer_size, armed,
  decrypt,
}
use boost_windows_tls.Decrypt
use boost_windows_tls.Decrypt.Deliver.{DecryptsInPlace, IsValid, received}
use boost_windows_tls.Decrypt.Waiting.{decrypt-Waits}
use boost_windows_tls.Stream.{ReadSome, Run, finished, receive, handle_decrypted, read_some}
use boost_windows_tls.Stream.Plaintext.{Protocol, Ahead, Conserves}
use boost_windows_tls.Stream.Delivery.{
  step-Conserves, read_joins, decrypt_needs, decrypt_error, Ahead-same,
}

module _ {World : Type 0} (sspi : Schannel World) (layer : NextLayer World)
    (protocol : Protocol sspi layer) (in_place : DecryptsInPlace sspi) (stream : IsStream layer)
    (net : Asio) (laws : IsDocumented net) (debug : Bool) where
  open protocol use {keys, open_record, incoming}

  -- A step that needs data and the read for it change nothing of the view, and the bytes still fit.
  read_keeps :
      (ctxt : Handle) (sizes : List ℕ) (d : SspiDecrypt) (w : World) (s : Stepped World)
      (plain : Bytes)
      → IsValid d
      → decrypt sspi net debug ctxt sizes d w ≡ some s
      → s.state ≡ data_needed
      → let r = layer.read_some s.decrypt.input_buffer.size s.world in
        let d' = Decrypt.size_read net (length r.bytes) (receive r.bytes s.decrypt) in
        failed r.error ≡ false
        → Ahead protocol d w plain
        → Ahead protocol d' r.world plain × IsValid d' × (d'.decrypted_data ≡ d.decrypted_data)
  read_keeps ctxt sizes d w s plain v e needs fine ahead =
      let r = layer.read_some s.decrypt.input_buffer.size s.world in
      let (waits, why) = decrypt-Waits net laws debug sspi in_place ctxt sizes d w s v e needs in
      let within = stream.read_within s.decrypt.input_buffer.size s.world in
      let (joined, valid, same) =
        read_joins sspi layer protocol in_place net laws debug d s.decrypt r.bytes waits v within in
      let (kept, same_keys, same_incoming) =
        decrypt_needs sspi layer protocol in_place net laws debug ctxt sizes d w s e needs in
      let (brought, same_keys') = protocol.reads s.decrypt.input_buffer.size s.world fine in
      (
        Ahead-same sspi layer protocol in_place net laws debug d
            (Decrypt.size_read net (length r.bytes) (receive r.bytes s.decrypt)) w r.world plain
            (same_keys' ∙ same_keys)
            (ap (◌++ incoming r.world) joined
              ∙ append_assoc (received d) r.bytes (incoming r.world)
              ∙ ap (received d ++◌) (sym brought ∙ same_incoming))
            ahead,
        valid,
        same ∙ kept,
      )

  -- One iteration, if those behind it deliver.
  handle_decrypted-Conserves :
      (rest : ErrorCode → SspiDecrypt → World → Run (ReadSome World)) (ec : ErrorCode)
      (ctxt : Handle) (sizes : List ℕ) (d : SspiDecrypt) (w : World) (s : Stepped World)
      (plain : Bytes) (out : ReadSome World) (state : DecryptState)
      → s.state ≡ state
      → IsValid d
      → decrypt sspi net debug ctxt sizes d w ≡ some s
      → Ahead protocol d w plain
      → ((ec' : ErrorCode) (d' : SspiDecrypt) (w' : World)
          → IsValid d'
          → Ahead protocol d' w' plain
          → rest ec' d' w' ≡ finished out
          → Conserves protocol d' plain out.delivered out.decrypt out.world)
      → handle_decrypted sspi net layer debug rest ec s ≡ finished out
      → failed out.error ≡ false
      → Conserves protocol d plain out.delivered out.decrypt out.world
  unfolding handle_decrypted
  handle_decrypted-Conserves rest ec ctxt sizes d w s plain out data_available k v e ahead later
        ends fine =
      let t =
        step-Conserves sspi layer protocol in_place net laws debug ctxt sizes d w s plain v e k
          ahead in
      let same_delivered : out.delivered ≡ s.delivered = ground (arith, k) in
      let same_decrypt : out.decrypt ≡ s.decrypt = ground (arith, k) in
      let same_world : out.world ≡ s.world = ground (arith, k) in
      rw (same_delivered, same_decrypt, same_world) t
  handle_decrypted-Conserves rest ec ctxt sizes d w s plain out error k v e ahead later ends fine =
      let code = decrypt_error sspi layer protocol in_place net laws debug ctxt sizes d w s e k in
      ground (arith, k, code)
  handle_decrypted-Conserves rest ec ctxt sizes d w s plain out data_needed k v e ahead later ends
        fine =
      let r = layer.read_some s.decrypt.input_buffer.size s.world in
      let d' = Decrypt.size_read net (length r.bytes) (receive r.bytes s.decrypt) in
      elim (Bool-cases (failed r.error)) [
        | inl bad ↦ ground (arith, k, bad)
        | inr good ↦
            let (ahead', valid, kept) = read_keeps ctxt sizes d w s plain v e k good ahead in
            let goes_on : rest r.error d' r.world ≡ finished out = ground (arith, k, good) in
            let (plain', after, whole, valid') = later r.error d' r.world valid ahead' goes_on in
            (plain', after, ap (λ x. available x ++ plain) (sym kept) ∙ whole, valid')
      ]

  -- A blocking read that reports no error delivers the next bytes of the plaintext: what it
  -- delivers, then the decrypted bytes that wait after it, then the plaintexts of the records in
  -- what is received or to come after it, are the waiting bytes and those plaintexts of before; and
  -- what has been received still fits the array. The chunks in which the records arrive do not
  -- matter. The received bytes are to fit the array; the package is to decrypt in place and to open
  -- records as the protocol says; the next layer is to bring the bytes to come in order.
  pub read_some-Conserves :
      (fuel : ℕ) (ctxt : Handle) (sizes : List ℕ) (ec : ErrorCode) (d : SspiDecrypt) (w : World)
      (plain : Bytes) (out : ReadSome World)
      → IsValid d
      → Ahead protocol d w plain
      → read_some sspi net layer debug fuel ctxt sizes ec d w ≡ finished out
      → failed out.error ≡ false
      → Conserves protocol d plain out.delivered out.decrypt out.world
  unfolding read_some
  read_some-Conserves zero ctxt sizes ec d w plain out v ahead ends fine = ground arith
  read_some-Conserves (suc fuel) ctxt sizes ec d w plain out v ahead ends fine =
      elim (Option-cases (decrypt sspi net debug ctxt sizes d w)) [
        | inl stopped ↦ ground (arith, stopped)
        | inr (s, stepped) ↦
            handle_decrypted-Conserves (read_some sspi net layer debug fuel ctxt sizes) ec ctxt
              sizes d w s plain out s.state refl v stepped ahead
              (λ ec' d' w' v' ahead' ends'.
                read_some-Conserves fuel ctxt sizes ec' d' w' plain out v' ahead' ends' fine)
              (ground (arith, stepped)) fine
      ]
