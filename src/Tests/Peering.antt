-- ===== src/Tests/Peering.antt =====
-- Two peers: a package that seals records of a length byte and as many bytes, and the reader of
-- Tests/Fixtures.
use boost_windows_tls.Common.{
  append-nil, take-append, length-slice, length-append, slice-congr, ◌%◌, ℕ, ◌<◌, ◌≡◌, refl, sym,
  ap, ◌∙◌, arith, true, false, ltb, ◌==◌, ◌&&◌, if◌then◌else◌, some, List, [], ◌∷◌, ◌++◌, Bytes,
  Array, length, drop, slice, store, Bool-cases, inl, inr,
}
use boost_windows_tls.Windows.{inside, sec_e_ok}
use boost_windows_tls.ErrorCode.{no_error}
use boost_windows_tls.Asio.{reference, reference-IsDocumented, concat}
use boost_windows_tls.Buffers.{Sequence4, sspi_buffer, const_buffer, const_buffers}
use boost_windows_tls.Schannel.{Handle, Schannel, MessageResult}
use boost_windows_tls.Encrypt.{EncryptBuffers, new_encrypt_buffers, prepare}
use boost_windows_tls.Encrypt.Layout.{IsLaidOut, ReportsSizes}
use boost_windows_tls.Stream.{write_some, read_some, ReadSome, handle_decrypted}
use boost_windows_tls.Decrypt.{
  SspiDecrypt, new_decrypt, decrypt, decrypt_received, deliver, keep_extra,
}
use boost_windows_tls.DecryptedData.{get, fill, available}
use boost_windows_tls.Encrypt.{encrypt, lay_out}
use boost_windows_tls.Decrypt
use boost_windows_tls.Tests.Streaming.{read_of}
use boost_windows_tls.Decrypt.Deliver.{received}
use boost_windows_tls.Stream.Peers.{
  Seals, Sends, Receives, wrote, wrote_all, read, read_all, peers_deliver,
}
use boost_windows_tls.Tests.Protocol.{protocol, open_record}
use boost_windows_tls.Tests.Fixtures.{
  layer-IsStream, schannel-DecryptsInPlace, World, handle, schannel, layer,
}

-- The length goes in front of the data, which is left where it is; only that layout is taken.
abbrev seal_one : Handle → Sequence4 → Array → World → MessageResult World
seal_one h s a w =
    if s.b0.cb_buffer == 1 && ltb s.b1.cb_buffer 256
    then record {
      status = sec_e_ok;
      buffers = record {
        b0 = record s.b0 { cb_buffer = 1; pv_buffer = inside 0 };
        b1 = s.b1;
        b2 = sspi_buffer 0;
        b3 = sspi_buffer 0;
      };
      memory = store a 0 (s.b1.cb_buffer ∷ []);
      world = w;
    }
    else record { status = 1; buffers = s; memory = a; world = w }

abbrev pub sealer : Schannel World
sealer = record schannel {
  encrypt_message = seal_one;
  query_stream_sizes = λ h w. record {
    status = sec_e_ok;
    value = record { cb_header = 1; cb_trailer = 0; cb_maximum_message = 4 };
    world = w;
  };
}

pub sealer-ReportsSizes : ReportsSizes sealer
sealer-ReportsSizes = record { fit = λ h w. omega arith }

-- What was sent, in order.
abbrev pub sent : List Bytes → Bytes
sent [] = []
sent (bs ∷ earlier) = sent earlier ++ bs

drop-append : (xs ys : Bytes) → drop (length xs) (xs ++ ys) ≡ ys
drop-append [] ys = refl
drop-append (x ∷ xs) ys = drop-append xs ys

opens :
    (xs more : Bytes)
    → length xs < 256
    → open_record tt (length xs ∷ (xs ++ more)) ≡ some (xs, more, tt)
opens xs more small =
    let n = length xs in
    let same : n % 256 ≡ n = omega arith in
    let whole : ltb (length (xs ++ more)) n ≡ false = ground (arith, length-append xs more) in
    rw (same, whole, take-append xs more, drop-append xs more) refl

-- The record that is made of the data at 1.
record_at_one :
    (a : Array) (n : ℕ) (more : Bytes)
    → n < 256
    → let m = store a 0 (n ∷ []) in
      open_record tt (((n ∷ []) ++ (slice m 1 n ++ [])) ++ more) ≡ some (slice a 1 n, more, tt)
record_at_one a n more small =
    let m = store a 0 (n ∷ []) in
    let xs = slice a 1 n in
    let same : slice m 1 n ≡ xs = slice-congr m a 1 n (λ i after before. ground (arith, after)) in
    let sized : length xs ≡ n = length-slice a 1 n in
    let made = opens xs more (omega (arith, sized, small)) in
    rw (same, append-nil xs) (ap (λ k. open_record tt (k ∷ (xs ++ more))) (sym sized) ∙ made)

pub seals :
    (h : Handle) (source : List Bytes) (consumed : ℕ) (e : EncryptBuffers) (w : World)
    → IsLaidOut source consumed e
    → let r = seal_one h e.buffers e.message w in
      r.status ≡ sec_e_ok
      → ((more : Bytes)
          → open_record tt (concat (const_buffers r.memory r.buffers) ++ more)
            ≡ some (const_buffer e.message e.buffers.b1, more, tt))
        × (sent r.world.sent ≡ sent w.sent)
seals h source consumed e w laid ok =
    let n = e.buffers.b1.cb_buffer in
    elim (Bool-cases (e.buffers.b0.cb_buffer == 1 && ltb n 256)) [
      | inl taken ↦
          let at_one : e.buffers.b1.pv_buffer ≡ inside 1 =
            laid.data_at ∙ ap inside (sym laid.header_size ∙ ground (arith, taken)) in
          let small : n < 256 = ground (arith, taken) in
          rw (taken, at_one) ((λ more. record_at_one e.message n more small), refl)
      | inr refused ↦ absurd (ground (arith, refused))
    ]

unfoldable pub writer : Seals sealer layer open_record
writer = record {
  sealing = λ w. tt;
  sent = λ w. sent w.sent;
  seals = seals;
  sizes_keep = λ h w. (refl, refl);
  writes = λ bs w h. (refl, refl);
}

-- The writer has sent nothing yet, and the reader is to receive what the writer sends in two chunks.
abbrev pub idle : World
idle = record { freed = []; incoming = []; sent = [] }

abbrev pub arriving : World
arriving = record { freed = []; incoming = (2 ∷ 10 ∷ []) ∷ (11 ∷ 1 ∷ 12 ∷ []) ∷ []; sent = [] }

abbrev pub two_sent : World
two_sent = record { freed = []; incoming = []; sent = (1 ∷ 12 ∷ []) ∷ (2 ∷ 10 ∷ 11 ∷ []) ∷ [] }

pub two_writes :
    Sends sealer reference layer handle new_encrypt_buffers idle (10 ∷ 11 ∷ 12 ∷ []) two_sent
unfolding write_some encrypt prepare lay_out new_encrypt_buffers
two_writes =
    wrote {others = 12 ∷ []} ((10 ∷ []) ∷ (11 ∷ []) ∷ []) refl
      (wrote {others = []} ((12 ∷ []) ∷ []) refl (wrote_all refl refl) refl) refl

abbrev read_once : SspiDecrypt → World → ReadSome World
read_once d w = read_of (read_some schannel reference layer true 4 handle (8 ∷ []) no_error d w)

abbrev first_read : ReadSome World
first_read = read_once (new_decrypt (λ i. 0) (λ i. 0)) arriving

abbrev second_read : ReadSome World
second_read = read_once first_read.decrypt first_read.world

two_reads :
    Receives schannel reference layer true handle
      (new_decrypt (λ i. 0) (λ i. 0))
      arriving
      (10 ∷ 11 ∷ 12 ∷ [])
      second_read.decrypt
      second_read.world
unfolding read_some handle_decrypted decrypt decrypt_received deliver keep_extra get fill
    Decrypt.size_read new_decrypt
two_reads =
    read {others = 12 ∷ []} 4 (8 ∷ []) first_read refl refl
      (read {others = []} 4 (8 ∷ []) second_read refl refl (read_all refl refl refl) refl) refl

abbrev pub three : Bytes
three = 10 ∷ 11 ∷ 12 ∷ []

peers_deliver_example :
    ((rest : Bytes) × (three ≡ three ++ rest))
    × (available second_read.decrypt.decrypted_data ≡ []
        → received second_read.decrypt ++ concat second_read.world.incoming ≡ []
        → three ≡ three)
unfolding writer
peers_deliver_example =
    peers_deliver reference reference-IsDocumented true schannel schannel-DecryptsInPlace layer
      layer-IsStream protocol sealer sealer-ReportsSizes layer writer handle handle (λ i. 0)
      (λ i. 0) three three idle two_sent arriving second_read.world second_read.decrypt (λ k. refl)
      refl refl two_writes two_reads
