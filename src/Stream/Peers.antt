-- ===== src/Stream/Peers.antt =====
-- stream.hpp, `write_some` on one side of a connection and `read_some` on the other: what a run of
-- successful writes puts on the wire, and what a run of successful reads makes of it.
use boost_windows_tls.Common.{
  arith, ℕ, ◌≡◌, refl, sym, ap, ◌∙◌, Bool, false, Option, none, some, List, [], ◌++◌, append_assoc,
  append-nil, Bytes, Array, take,
}
use mathlib.Core.List.{append_cancel_left}
use boost_windows_tls.Windows.{sec_e_ok}
use boost_windows_tls.ErrorCode.{no_error, failed}
use boost_windows_tls.Asio.{Asio, IsDocumented, concat}
use boost_windows_tls.Buffers.{const_buffer, const_buffers}
use boost_windows_tls.Schannel.{Handle, Schannel}
use boost_windows_tls.NextLayer.{NextLayer, IsStream}
use boost_windows_tls.DecryptedData.{available}
use boost_windows_tls.Decrypt.{SspiDecrypt, new_decrypt}
use boost_windows_tls.Decrypt.Deliver.{DecryptsInPlace, IsValid, received}
use boost_windows_tls.Encrypt.{encrypt, EncryptBuffers, new_encrypt_buffers, prepare}
use boost_windows_tls.Encrypt.Layout.{IsSized, IsLaidOut, ReportsSizes}
use boost_windows_tls.Stream.{read_some, write_some, finished, ReadSome}
use boost_windows_tls.Stream.Writing.{write_some_sends}
use boost_windows_tls.Stream.Plaintext.{Decodes, no_more, one_more, Protocol, Ahead, Conserves}
use boost_windows_tls.Stream.Refinement.{read_some-Conserves}

-- The sender's side of a protocol: the keys under which the next message is sealed, and the bytes that
-- the next layer was given.
pub record Seals {World Keys : Type 0} (sspi : Schannel World) (layer : NextLayer World)
    (open_record : Keys → Bytes → Option (Bytes × Bytes × Keys)) : Type 0 where
  pub sealing : World → Keys
  pub sent : World → Bytes
  -- EncryptMessage makes one record of a message that is laid out as it asks, with the bytes of the
  -- data buffer as plaintext.
  pub seals :
      (h : Handle) (source : List Bytes) (consumed : ℕ) (e : EncryptBuffers) (w : World)
      → IsLaidOut source consumed e
      → let r = sspi.encrypt_message h e.buffers e.message w in
        r.status ≡ sec_e_ok
        → ((more : Bytes)
            → open_record (sealing w) (concat (const_buffers r.memory r.buffers) ++ more)
              ≡ some (const_buffer e.message e.buffers.b1, more, sealing r.world))
          × (sent r.world ≡ sent w)
  pub sizes_keep :
      (h : Handle) (w : World)
      → (sealing (sspi.query_stream_sizes h w).world ≡ sealing w)
        × (sent (sspi.query_stream_sizes h w).world ≡ sent w)
  pub writes :
      (bs : Bytes) (w : World)
      → failed (layer.write bs w).error ≡ false
      → (sent (layer.write bs w).world ≡ sent w ++ bs)
        × (sealing (layer.write bs w).world ≡ sealing w)

module _ {World : Type 0} (sspi : Schannel World) (net : Asio) (layer : NextLayer World) where
  -- Successful calls of `write_some`, one behind the other, and the bytes that they consumed.
  pub data Sends : Handle → EncryptBuffers → World → Bytes → World → Type 0 where
    wrote_all :
        {ctxt : Handle} {e : EncryptBuffers} {w w' : World} {plain : Bytes}
        → plain ≡ []
        → w' ≡ w
        → Sends ctxt e w plain w'
    wrote :
        {ctxt : Handle} {e : EncryptBuffers} {w w' : World} {plain others : Bytes}
        → (source : List Bytes)
        → failed (write_some sspi net layer ctxt source no_error e w).error ≡ false
        → Sends ctxt
            (write_some sspi net layer ctxt source no_error e w).encrypt
            (write_some sspi net layer ctxt source no_error e w).world
            others
            w'
        → plain
          ≡ take (write_some sspi net layer ctxt source no_error e w).count (concat source)
            ++ others
        → Sends ctxt e w plain w'

  -- Successful calls of `read_some`, one behind the other, and the bytes that they delivered.
  pub data Receives (debug : Bool)
      : Handle → SspiDecrypt → World → Bytes → SspiDecrypt → World → Type 0 where
    read_all :
        {ctxt : Handle} {d d' : SspiDecrypt} {w w' : World} {out : Bytes}
        → out ≡ []
        → d' ≡ d
        → w' ≡ w
        → Receives debug ctxt d w out d' w'
    read :
        {ctxt : Handle} {d d' : SspiDecrypt} {w w' : World} {out others : Bytes}
        → (fuel : ℕ) (sizes : List ℕ) (r : ReadSome World)
        → read_some sspi net layer debug fuel ctxt sizes no_error d w ≡ finished r
        → failed r.error ≡ false
        → Receives debug ctxt r.decrypt r.world others d' w'
        → out ≡ r.delivered ++ others
        → Receives debug ctxt d w out d' w'

pub new_encrypt_buffers-IsSized : IsSized new_encrypt_buffers
unfolding new_encrypt_buffers
new_encrypt_buffers-IsSized = record { no_wrap = omega arith; sized = λ ne. absurd (ne refl) }

module _ (net : Asio) (laws : IsDocumented net) {World Keys : Type 0} (sspi : Schannel World)
    (reports : ReportsSizes sspi) (layer : NextLayer World)
    (open_record : Keys → Bytes → Option (Bytes × Bytes × Keys))
    (peer : Seals sspi layer open_record) where
  open peer use {sealing, sent}

  prepare_keeps :
      (ctxt : Handle) (source : List Bytes) (e : EncryptBuffers) (w : World)
      → let p = prepare sspi net ctxt source e w in
        (sealing p.world ≡ sealing w) × (sent p.world ≡ sent w)
  unfolding prepare
  prepare_keeps ctxt source e w = ground (arith, peer.sizes_keep ctxt w)

  layer_wrote :
      (ctxt : Handle) (source : List Bytes) (e : EncryptBuffers) (w : World)
      → let p = prepare sspi net ctxt source e w in
        let r = sspi.encrypt_message ctxt p.buffers.buffers p.buffers.message p.world in
        failed (write_some sspi net layer ctxt source no_error e w).error ≡ false
        → failed (layer.write (concat (const_buffers r.memory r.buffers)) r.world).error ≡ false
  unfolding write_some encrypt
  layer_wrote ctxt source e w fine = ground arith

  -- One write appends one record, whose plaintext is what it consumed.
  pub write_some_seals :
      (ctxt : Handle) (source : List Bytes) (e : EncryptBuffers) (w : World)
      → IsSized e
      → let r = write_some sspi net layer ctxt source no_error e w in
        failed r.error ≡ false
        → (bs : Bytes) × (sent r.world ≡ sent w ++ bs)
          × ((more : Bytes)
              → open_record (sealing w) (bs ++ more)
                ≡ some (take r.count (concat source), more, sealing r.world))
          × IsSized r.encrypt
  write_some_seals ctxt source e w v fine =
      let p = prepare sspi net ctxt source e w in
      let r = sspi.encrypt_message ctxt p.buffers.buffers p.buffers.message p.world in
      let n = (write_some sspi net layer ctxt source no_error e w).count in
      let bs = concat (const_buffers r.memory r.buffers) in
      let (laid, ok, world, sized) =
        write_some_sends net laws sspi reports layer ctxt source e w v fine in
      let (opens, quiet) = peer.seals ctxt source n p.buffers p.world laid ok in
      let (appended, same_keys) = peer.writes bs r.world (layer_wrote ctxt source e w fine) in
      let (before, sent_before) = prepare_keeps ctxt source e w in
      (
        bs,
        ap sent world ∙ appended ∙ ap (◌++ bs) (quiet ∙ sent_before),
        (λ more. rw (world, same_keys, sym before, sym laid.data_bytes) (opens more)),
        sized,
      )

  pub Sends-Decodes :
      (ctxt : Handle) (e : EncryptBuffers) (w w' : World) (plain : Bytes)
      → ((k : Keys) → open_record k [] ≡ none)
      → IsSized e
      → Sends sspi net layer ctxt e w plain w'
      → (bs : Bytes) × (sent w' ≡ sent w ++ bs) × Decodes open_record (sealing w) bs plain
  Sends-Decodes ctxt e w w' plain nothing v (wrote_all none_sent same) =
      ([], rw same (sym (append-nil (sent w))), no_more (nothing (sealing w)) none_sent)
  Sends-Decodes ctxt e w w' plain nothing v (wrote {others = others} source fine more whole) =
      let (bs, appended, opens, sized) = write_some_seals ctxt source e w v fine in
      let r = write_some sspi net layer ctxt source no_error e w in
      let (bs', appended', decodes) =
        Sends-Decodes ctxt r.encrypt r.world w' others nothing sized more in
      (
        bs ++ bs',
        appended' ∙ ap (◌++ bs') appended ∙ append_assoc (sent w) bs bs',
        one_more (opens bs') decodes whole,
      )

module _ (net : Asio) (laws : IsDocumented net) (debug : Bool) {World : Type 0}
    (sspi : Schannel World) (in_place : DecryptsInPlace sspi) (layer : NextLayer World)
    (stream : IsStream layer) (protocol : Protocol sspi layer) where
  pub Receives-Conserves :
      (ctxt : Handle) (d d' : SspiDecrypt) (w w' : World) (plain out : Bytes)
      → IsValid d
      → Ahead protocol d w plain
      → Receives sspi net layer debug ctxt d w out d' w'
      → Conserves protocol d plain out d' w'
  Receives-Conserves ctxt d d' w w' plain out v ahead (read_all none_read same_d same_w) =
      rw (none_read, same_d, same_w) (plain, ahead, refl, v)
  Receives-Conserves ctxt d d' w w' plain out v ahead
        (read {others = others} fuel sizes r ends fine more whole) =
      let (plain₁, ahead₁, split₁, v₁) =
        read_some-Conserves sspi layer protocol in_place stream net laws debug fuel ctxt sizes
          no_error d w plain r v ahead ends fine in
      let (plain₂, ahead₂, split₂, v₂) =
        Receives-Conserves ctxt r.decrypt d' r.world w' plain₁ others v₁ ahead₁ more in
      (
        plain₂,
        ahead₂,
        split₁
            ∙ ap (r.delivered ++◌) split₂
            ∙ sym (append_assoc r.delivered others (available d'.decrypted_data ++ plain₂))
            ∙ ap (◌++ (available d'.decrypted_data ++ plain₂)) (sym whole),
        v₂,
      )

  pub fresh_waiting :
      (encrypted decrypted : Array)
      → let d = new_decrypt encrypted decrypted in
        (received d ≡ []) × (available d.decrypted_data ≡ []) × IsValid d
  unfolding new_decrypt
  fresh_waiting encrypted decrypted = (refl, refl, record { fits = omega arith; at_front = refl })

  nothing_ahead :
      (k : protocol.Keys) (bs plain : Bytes)
      → ((k' : protocol.Keys) → protocol.open_record k' [] ≡ none)
      → bs ≡ []
      → Decodes protocol.open_record k bs plain
      → plain ≡ []
  nothing_ahead k bs plain nothing ends (no_more closed e) = e
  nothing_ahead k bs plain nothing ends (one_more opens more e) = absurd (let z = nothing k in cc)

  -- What one side reads is what the other side wrote, in order and with nothing lost in between:
  -- after any run of successful blocking writes by a side that had written nothing, and any run of
  -- successful blocking reads by a side that had read nothing, the bytes that the writes consumed
  -- are the bytes that the reads delivered and some that are still to come; there are none to come
  -- once no decrypted byte waits and nothing that was received or is to arrive is left. The bytes
  -- that arrive are to be those that were sent; the writer's package is to seal a message that is
  -- laid out as it asks into one record that the reader's package opens, the reader's package to
  -- decrypt in place, and the two to start with the same keys.
  pub peers_deliver :
      {Sender : Type 0} (sender : Schannel Sender) (reports : ReportsSizes sender)
      (sender_layer : NextLayer Sender) (peer : Seals sender sender_layer protocol.open_record)
      (a b : Handle) (encrypted decrypted : Array) (plain out : Bytes) (w w' : Sender)
      (v v' : World) (d' : SspiDecrypt)
      → ((k : protocol.Keys) → protocol.open_record k [] ≡ none)
      → peer.sealing w ≡ protocol.keys v
      → peer.sent w' ≡ peer.sent w ++ protocol.incoming v
      → Sends sender net sender_layer a new_encrypt_buffers w plain w'
      → Receives sspi net layer debug b (new_decrypt encrypted decrypted) v out d' v'
      → ((rest : Bytes) × (plain ≡ out ++ rest))
        × (available d'.decrypted_data ≡ []
            → received d' ++ protocol.incoming v' ≡ []
            → plain ≡ out)
  peers_deliver sender reports sender_layer peer a b encrypted decrypted plain out w w' v v' d'
        nothing same_keys carried writes reads =
      let d = new_decrypt encrypted decrypted in
      let (none_received, none_waits, valid) = fresh_waiting encrypted decrypted in
      let (bs, appended, decodes) =
        Sends-Decodes net laws sender reports sender_layer protocol.open_record peer a
          new_encrypt_buffers w w' plain nothing new_encrypt_buffers-IsSized writes in
      let same_bytes : bs ≡ protocol.incoming v =
        append_cancel_left (peer.sent w) bs (protocol.incoming v) (sym appended ∙ carried) in
      let ahead : Ahead protocol d v plain =
        rw (none_received, sym same_keys, sym same_bytes) decodes in
      let (left, later, whole, valid') =
        Receives-Conserves b d d' v v' plain out valid ahead reads in
      let split : plain ≡ out ++ (available d'.decrypted_data ++ left) =
        ap (◌++ plain) (sym none_waits) ∙ whole in
      (
        (available d'.decrypted_data ++ left, split),
        λ none_kept none_left.
            let over : left ≡ [] =
              nothing_ahead (protocol.keys v') (received d' ++ protocol.incoming v') left nothing
                none_left later in
            split ∙ ap (out ++◌) (ap (◌++ left) none_kept ∙ over) ∙ append-nil out,
      )
