-- ===== src/Connection/Duplex.antt =====
-- stream.hpp: reads and writes of one stream beside each other.
use boost_windows_tls.Common.{
  ℕ, ◌≡◌, refl, sym, ap, ◌∙◌, arith, false, Option, List, [], ◌++◌, append_assoc, append-nil, Bytes,
  Array, take,
}
use boost_windows_tls.ErrorCode.{failed, no_error}
use boost_windows_tls.Asio.{IsDocumented, concat}
use boost_windows_tls.Buffers.{Sequence4}
use boost_windows_tls.Schannel.{Handle, Schannel}
use boost_windows_tls.NextLayer.{NextLayer, IsStream}
use boost_windows_tls.DecryptedData.{available}
use boost_windows_tls.Decrypt.{SspiDecrypt}
use boost_windows_tls.Decrypt.Deliver.{DecryptsInPlace, IsValid}
use boost_windows_tls.Encrypt.{EncryptBuffers, prepare, encrypt, wire}
use boost_windows_tls.Encrypt.Layout.{IsSized, ReportsSizes}
use boost_windows_tls.Stream.{finished, write_some}
use boost_windows_tls.Stream.Plaintext.{Decodes, one_more, Protocol, Ahead, Conserves}
use boost_windows_tls.Stream.Keeping.{read_some_keeps}
use boost_windows_tls.Stream.Refinement.{read_some-Conserves}
use boost_windows_tls.Stream.Peers.{Seals, write_some_seals}
use boost_windows_tls.Connection.{
  AsyncWrite, after_read, Platform, TlsStream, Completion, async_write_some, async_read_some,
  after_write, run_map_ends,
}
use boost_windows_tls.Async.Write.{async_write_sound, async_write_some as coroutine}
use boost_windows_tls.Async.Read.{async_read}
use boost_windows_tls.Async.ReadLaws.{ReportsCleanly, async_read_sound}

-- The two directions of a connection do not touch each other.
pub record Duplex {World Keys : Type 0} {sspi : Schannel World} {layer : NextLayer World}
    {reopen : Keys → Bytes → Option (Bytes × Bytes × Keys)} (protocol : Protocol sspi layer)
    (peer : Seals sspi layer reopen) : Type 0 where
  pub encrypts :
      (h : Handle) (s : Sequence4) (a : Array) (w : World)
      → (protocol.keys (sspi.encrypt_message h s a w).world ≡ protocol.keys w)
        × (protocol.incoming (sspi.encrypt_message h s a w).world ≡ protocol.incoming w)
  pub asks :
      (h : Handle) (w : World)
      → (protocol.keys (sspi.query_stream_sizes h w).world ≡ protocol.keys w)
        × (protocol.incoming (sspi.query_stream_sizes h w).world ≡ protocol.incoming w)
  pub sends :
      (bs : Bytes) (w : World)
      → (protocol.keys (layer.write bs w).world ≡ protocol.keys w)
        × (protocol.incoming (layer.write bs w).world ≡ protocol.incoming w)
  pub decrypts :
      (h : Handle) (s : Sequence4) (a : Array) (w : World)
      → (peer.sealing (sspi.decrypt_message h s a w).world ≡ peer.sealing w)
        × (peer.sent (sspi.decrypt_message h s a w).world ≡ peer.sent w)
  pub reads :
      (n : ℕ) (w : World)
      → (peer.sealing (layer.read_some n w).world ≡ peer.sealing w)
        × (peer.sent (layer.read_some n w).world ≡ peer.sent w)

module _ {World : Type 0} (p : Platform World) where
  -- Asynchronous writes that took these bytes, one behind the other.
  pub data Written : TlsStream World → Bytes → TlsStream World → Type 0 where
    all_written : {t t' : TlsStream World} {bs : Bytes} → bs ≡ [] → t' ≡ t → Written t bs t'
    some_written :
        {t t' : TlsStream World} {bs others : Bytes}
        → (fuel : ℕ) (source : List Bytes) (c : Completion World)
        → async_write_some p fuel source t ≡ finished c
        → failed c.error ≡ false
        → Written c.stream others t'
        → bs ≡ take c.count (concat source) ++ others
        → Written t bs t'

  -- `async_write` is made of calls of `async_write_some`, and succeeds once they took the buffer.
  abbrev pub Composed : AsyncWrite World → Type 0
  Composed async_write =
      (fuel : ℕ) (bs : Bytes) (t : TlsStream World) (c : Completion World)
      → async_write fuel bs t ≡ finished c
      → failed c.error ≡ false
      → Written t bs c.stream

module _ {World Keys : Type 0} (p : Platform World) (laws : IsDocumented p.asio)
    (reports : ReportsSizes p.sspi) (protocol : Protocol p.sspi p.layer)
    (reopen : Keys → Bytes → Option (Bytes × Bytes × Keys)) (peer : Seals p.sspi p.layer reopen)
    (duplex : Duplex protocol peer) where
  -- The wire got bytes that decode to these, whatever comes behind them.
  abbrev pub Reaches : World → Bytes → World → Type 0
  Reaches w bs w' =
      (wire : Bytes) × (peer.sent w' ≡ peer.sent w ++ wire)
      × ((more plain : Bytes)
          → Decodes reopen (peer.sealing w') more plain
          → Decodes reopen (peer.sealing w) (wire ++ more) (bs ++ plain))

  pub Reaches-nothing :
      (w w' : World)
      → peer.sealing w' ≡ peer.sealing w
      → peer.sent w' ≡ peer.sent w
      → Reaches w [] w'
  Reaches-nothing w w' keys sent =
      ([], sent ∙ sym (append-nil (peer.sent w)), λ more plain decodes. rw (sym keys) decodes)

  pub Reaches-further :
      (w w' w'' : World) (bs bs' : Bytes)
      → Reaches w bs w'
      → Reaches w' bs' w''
      → Reaches w (bs ++ bs') w''
  Reaches-further w w' w'' bs bs' (wire, sent, opens) (wire', sent', opens') = (
    wire ++ wire',
    sent' ∙ ap (◌++ wire') sent ∙ append_assoc (peer.sent w) wire wire',
    λ more plain decodes.
        rw (append_assoc wire wire' more, append_assoc bs bs' plain)
          (opens (wire' ++ more) (bs' ++ plain) (opens' more plain decodes)),
  )

  -- The side that reads is where it was.
  abbrev pub Aside : TlsStream World → TlsStream World → Type 0
  Aside t t' =
      (protocol.keys t'.world ≡ protocol.keys t.world)
      × (protocol.incoming t'.world ≡ protocol.incoming t.world)

  write_some_keeps :
      (ctxt : Handle) (source : List Bytes) (e : EncryptBuffers) (w : World)
      → let r = write_some p.sspi p.asio p.layer ctxt source no_error e w in
        (protocol.keys r.world ≡ protocol.keys w)
        × (protocol.incoming r.world ≡ protocol.incoming w)
  unfolding write_some encrypt prepare
  write_some_keeps ctxt source e w =
      let q = prepare p.sspi p.asio ctxt source e w in
      let r = p.sspi.encrypt_message ctxt q.buffers.buffers q.buffers.message q.world in
      let out = encrypt p.sspi p.asio ctxt source no_error e w in
      ground (
        arith,
        duplex.asks ctxt w,
        duplex.encrypts ctxt q.buffers.buffers q.buffers.message q.world,
        duplex.sends (concat (wire out.buffers)) out.world,
      )

  write_some-Reaches :
      (ctxt : Handle) (source : List Bytes) (e : EncryptBuffers) (w : World)
      → IsSized e
      → let r = write_some p.sspi p.asio p.layer ctxt source no_error e w in
        failed r.error ≡ false
        → Reaches w (take r.count (concat source)) r.world
          × ((protocol.keys r.world ≡ protocol.keys w)
              × (protocol.incoming r.world ≡ protocol.incoming w))
          × IsSized r.encrypt
  write_some-Reaches ctxt source e w v fine =
      let (bs, appended, opens, sized) =
        write_some_seals p.asio laws p.sspi reports p.layer reopen peer ctxt source e w v fine in
      (
        (bs, appended, λ more plain decodes. one_more (opens more) decodes refl),
        write_some_keeps ctxt source e w,
        sized,
      )

  async_write_some-Reaches :
      (fuel : ℕ) (source : List Bytes) (t : TlsStream World) (c : Completion World)
      → IsSized t.sspi_stream.encrypt
      → async_write_some p fuel source t ≡ finished c
      → failed c.error ≡ false
      → Reaches t.world (take c.count (concat source)) c.stream.world
        × Aside t c.stream
        × IsSized c.stream.sspi_stream.encrypt
        × (c.stream.sspi_stream.decrypt ≡ t.sspi_stream.decrypt)
  unfolding async_write_some
  async_write_some-Reaches fuel source t c v e fine =
      let st = t.sspi_stream in
      let (r, ends, same) =
        run_map_ends (after_write t)
          (coroutine p.sspi p.asio st.ctxt_handle source p.layer fuel st.encrypt t.world) c e in
      let good : failed r.error ≡ false = ground (arith, same, fine) in
      let blocking : write_some p.sspi p.asio p.layer st.ctxt_handle source no_error st.encrypt
            t.world
          ≡ r =
        async_write_sound p.sspi p.asio st.ctxt_handle source p.layer fuel st.encrypt t.world r ends
          good in
      let (reached, aside, sized) =
        write_some-Reaches st.ctxt_handle source st.encrypt t.world v (rw blocking good) in
      rw same (rw (sym blocking) (reached, aside, sized, refl))

  pub Written-Reaches :
      (t t' : TlsStream World) (bs : Bytes)
      → IsSized t.sspi_stream.encrypt
      → Written p t bs t'
      → Reaches t.world bs t'.world
        × Aside t t'
        × IsSized t'.sspi_stream.encrypt
        × (t'.sspi_stream.decrypt ≡ t.sspi_stream.decrypt)
  Written-Reaches t t' bs v (all_written none_left same) =
      rw (same, none_left) (Reaches-nothing t.world t.world refl refl, (refl, refl), v, refl)
  Written-Reaches t t' bs v (some_written {others = others} fuel source c e fine more whole) =
      let (reached, (k₁, i₁), sized, d₁) = async_write_some-Reaches fuel source t c v e fine in
      let (reached', (k₂, i₂), sized', d₂) = Written-Reaches c.stream t' others sized more in
      (
        rw whole (
            Reaches-further t.world c.stream.world t'.world (take c.count (concat source)) others
              reached reached'),
        (k₂ ∙ k₁, i₂ ∙ i₁),
        sized',
        d₂ ∙ d₁,
      )

  pub Conserves-further :
      (d d' d'' : SspiDecrypt) (w' w'' : World) (plain out out' : Bytes)
      → Conserves protocol d plain out d' w'
      → ((plain' : Bytes)
          → IsValid d'
          → Ahead protocol d' w' plain'
          → Conserves protocol d' plain' out' d'' w'')
      → Conserves protocol d plain (out ++ out') d'' w''
  Conserves-further d d' d'' w' w'' plain out out' (plain₁, ahead₁, split₁, v₁) later =
      let (plain₂, ahead₂, split₂, v₂) = later plain₁ v₁ ahead₁ in
      (
        plain₂,
        ahead₂,
        split₁
            ∙ ap (out ++◌) split₂
            ∙ sym (append_assoc out out' (available d''.decrypted_data ++ plain₂)),
        v₂,
      )

  module _ (in_place : DecryptsInPlace p.sspi) (stream : IsStream p.layer)
      (clean : ReportsCleanly p.layer) where
    pub read_carries :
        (fuel : ℕ) (sizes : List ℕ) (t : TlsStream World) (c : Completion World) (plain : Bytes)
        → IsValid t.sspi_stream.decrypt
        → Ahead protocol t.sspi_stream.decrypt t.world plain
        → async_read_some p fuel sizes t ≡ finished c
        → failed c.error ≡ false
        → Conserves protocol t.sspi_stream.decrypt plain c.delivered c.stream.sspi_stream.decrypt
            c.stream.world
          × Reaches t.world [] c.stream.world
          × (c.stream.sspi_stream.encrypt ≡ t.sspi_stream.encrypt)
    unfolding async_read_some
    read_carries fuel sizes t c plain v ahead e fine =
        let st = t.sspi_stream in
        let (r, ends, same) =
          run_map_ends (after_read t)
            (async_read p.sspi p.asio p.debug st.ctxt_handle sizes p.layer fuel st.decrypt t.world)
            c e in
        let good : failed r.error ≡ false = ground (arith, same, fine) in
        let blocking =
          async_read_sound p.sspi p.asio p.debug st.ctxt_handle sizes p.layer clean fuel st.decrypt
            t.world r ends in
        rw same (
          read_some-Conserves p.sspi p.layer protocol in_place stream p.asio laws p.debug fuel
              st.ctxt_handle sizes no_error st.decrypt t.world plain r v ahead blocking good,
          Reaches-nothing t.world r.world
              (read_some_keeps p.sspi p.asio p.layer p.debug peer.sealing
                (λ h s a w. (duplex.decrypts h s a w).0) (λ n w. (duplex.reads n w).0) fuel
                st.ctxt_handle sizes no_error st.decrypt t.world r blocking)
              (read_some_keeps p.sspi p.asio p.layer p.debug peer.sent
                (λ h s a w. (duplex.decrypts h s a w).1) (λ n w. (duplex.reads n w).1) fuel
                st.ctxt_handle sizes no_error st.decrypt t.world r blocking),
          refl,
        )
