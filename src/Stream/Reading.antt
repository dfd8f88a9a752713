-- ===== src/Stream/Reading.antt =====
-- stream.hpp, `read_some`: the iterations of its loop.
use boost_windows_tls.Common.{
  [], ℕ, zero, suc, ◌+◌, ◌-◌, ◌≤◌, ◌<◌, ◌≡◌, ◌≢◌, refl, arith, List, some, Bytes, length, false,
  Bool, Bool-cases, inl, inr,
}
use boost_windows_tls.Windows.{sec_e_incomplete_message}
use boost_windows_tls.ErrorCode.{make_error_code, ErrorCode, failed}
use boost_windows_tls.Asio.{Asio, IsDocumented}
use boost_windows_tls.Buffers.{Sequence4}
use boost_windows_tls.Schannel.{Handle, Schannel}
use boost_windows_tls.NextLayer.{NextLayer, IsStream}
use boost_windows_tls.Decrypt.{
  SspiDecrypt, Stepped, DecryptState, data_needed, data_available, error, buffer_size, armed,
  decrypt,
}
use boost_windows_tls.Decrypt
use boost_windows_tls.Decrypt.Deliver.{DecryptsInPlace, IsValid}
use boost_windows_tls.Decrypt.Validity.{decrypt-IsValid}
use boost_windows_tls.Decrypt.Waiting.{Waits, decrypt-Waits}
use boost_windows_tls.Stream.{ReadSome, Run, finished, receive, handle_decrypted, read_some}

-- A record is never larger than the array, so a full array is not an incomplete record.
pub record RecordsFit {World : Type 0} (sspi : Schannel World) : Type 0 where
  pub complete :
      (h : Handle) (s : Sequence4) (a : ℕ → ℕ) (w : World)
      → s.b0.cb_buffer ≡ buffer_size
      → (sspi.decrypt_message h s a w).status ≢ sec_e_incomplete_message

module _ (net : Asio) (laws : IsDocumented net) (debug : Bool) {World : Type 0}
    (sspi : Schannel World) (in_place : DecryptsInPlace sspi) (fit : RecordsFit sspi)
    (layer : NextLayer World) (stream : IsStream layer) where
  -- Each iteration that goes on has more bytes than the one before.
  grows :
      (d d' : SspiDecrypt) (bs : Bytes)
      → Waits d d'
      → length bs ≤ buffer_size - d.buffers.b0.cb_buffer
      → IsValid d
      → let d'' = Decrypt.size_read net (length bs) (receive bs d') in
        IsValid d'' × (d''.buffers.b0.cb_buffer ≡ d.buffers.b0.cb_buffer + length bs)
  unfolding Decrypt.size_read
  grows d d' bs waits small v = ground arith

  -- A read of the next layer for an incomplete record is never given an empty buffer.
  has_room :
      (ctxt : Handle) (sizes : List ℕ) (d : SspiDecrypt) (w : World) (s : Stepped World)
      → IsValid d
      → decrypt sspi net debug ctxt sizes d w ≡ some s
      → s.state ≡ data_needed
      → 0 < s.decrypt.input_buffer.size
  has_room ctxt sizes d w s v e needs =
      let (waits, why) = decrypt-Waits net laws debug sspi in_place ctxt sizes d w s v e needs in
      let full = fit.complete ctxt (armed d.buffers) d.encrypted_data w in ground (arith, full)

  -- One iteration ends the loop if the iterations behind it do.
  handle_decrypted_ends :
      (rest : ErrorCode → SspiDecrypt → World → Run (ReadSome World)) (ec : ErrorCode)
      (s : Stepped World) (state : DecryptState)
      → s.state ≡ state
      → (let r = layer.read_some s.decrypt.input_buffer.size s.world in
          state ≡ data_needed
          → failed r.error ≡ false
          → (x : ReadSome World) × (rest r.error
                (Decrypt.size_read net (length r.bytes) (receive r.bytes s.decrypt))
                r.world
              ≡ finished x))
      → (x : ReadSome World) × (handle_decrypted sspi net layer debug rest ec s ≡ finished x)
  unfolding handle_decrypted
  handle_decrypted_ends rest ec s data_needed e h =
      let r = layer.read_some s.decrypt.input_buffer.size s.world in
      elim (Bool-cases (failed r.error)) [
        | inl bad ↦ (
          record {
            error = r.error;
            count = 0;
            delivered = [];
            decrypt = receive r.bytes s.decrypt;
            world = r.world;
          },
          rw (e, handle_decrypted) (rw bad),
        )
        | inr fine ↦ let (x, ends) = h refl fine in (x, rw (e, handle_decrypted) (rw fine ends))
      ]
  handle_decrypted_ends rest ec s data_available e h = (
    record {
      error = ec;
      count = s.decrypt.size_decrypted;
      delivered = s.delivered;
      decrypt = s.decrypt;
      world = s.world;
    },
    rw (e, handle_decrypted),
  )
  handle_decrypted_ends rest ec s error e h = (
    record {
      error = make_error_code s.decrypt.last_error;
      count = 0;
      delivered = [];
      decrypt = s.decrypt;
      world = s.world;
    },
    rw (e, handle_decrypted),
  )

  -- A blocking read whose received bytes fit the array ends after at most as many iterations as the
  -- array has free bytes, and two: it returns, and no assertion stops the program. The package is
  -- to decrypt in place and never to call a full array incomplete, and the next layer to bring
  -- something when it does not fail.
  pub read_some_ends :
      (fuel : ℕ) (ctxt : Handle) (sizes : List ℕ) (ec : ErrorCode) (d : SspiDecrypt) (w : World)
      → IsValid d
      → buffer_size - d.buffers.b0.cb_buffer + 1 < fuel
      → (r : ReadSome World) × (read_some sspi net layer debug fuel ctxt sizes ec d w ≡ finished r)
  unfolding read_some
  read_some_ends zero ctxt sizes ec d w v enough = absurd (omega arith)
  read_some_ends (suc fuel) ctxt sizes ec d w v enough =
      let (s, e, valid) = decrypt-IsValid net laws debug sspi in_place ctxt sizes d w v in
      let r = layer.read_some s.decrypt.input_buffer.size s.world in
      let within = stream.read_within s.decrypt.input_buffer.size s.world in
      let brings = stream.read_brings s.decrypt.input_buffer.size s.world in
      rw (e, read_some)
        (handle_decrypted_ends (read_some sspi net layer debug fuel ctxt sizes) ec s s.state refl
          λ needs fine.
            let (waits, _) =
              decrypt-Waits net laws debug sspi in_place ctxt sizes d w s v e needs in
            let some_room = has_room ctxt sizes d w s v e needs in
            let more = brings some_room fine in
            let (valid', more_bytes) =
              grows d s.decrypt r.bytes waits (omega (arith, within, waits.room)) v in
            read_some_ends fuel ctxt sizes r.error
              (Decrypt.size_read net (length r.bytes) (receive r.bytes s.decrypt)) r.world valid'
              (omega (arith, more_bytes, more, within, waits.room, enough)))
