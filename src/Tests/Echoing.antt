-- ===== src/Tests/Echoing.antt =====
-- The echo server with a peer, both with the package of Tests/Peering.
use boost_windows_tls.Connection
use boost_windows_tls.Async
use boost_windows_tls.Decrypt
use boost_windows_tls.DecryptedData
use boost_windows_tls.Stream
use boost_windows_tls.Encrypt
use boost_windows_tls.Examples.EchoServer
use boost_windows_tls.Common.{
  ℕ, zero, suc, ◌+◌, ◌≡◌, refl, sym, ap, arith, true, inl, inr, Bool-cases, List, [], ◌∷◌, ◌++◌,
  append-nil, take-append-drop, Bytes, take, drop, if◌then◌else◌,
}
use boost_windows_tls.ErrorCode.{no_error, failed}
use boost_windows_tls.Asio.{reference, reference-IsDocumented, concat}
use boost_windows_tls.Decrypt.Deliver.{DecryptsInPlace}
use boost_windows_tls.Decrypt.{SspiDecrypt, new_decrypt}
use boost_windows_tls.Stream.{Run, finished, aborted, unfinished, ReadSome, read_some}
use boost_windows_tls.Stream.Plaintext.{Protocol}
use boost_windows_tls.Stream.Counting.{AlwaysHasData}
use boost_windows_tls.Stream.Peers.{Receives, read, read_all}
use boost_windows_tls.Connection.{
  Platform, TlsStream, Completion, AsyncWrite, construct, run_map, run_then, run_then_ends,
  run_map_ends, async_write_some,
}
use boost_windows_tls.Connection.Duplex.{Duplex, Composed, all_written, some_written}
use boost_windows_tls.Examples.EchoServer.{
  Session, Serves, completes, waits, Turn, complete, reading,
}
use boost_windows_tls.Examples.EchoServer.Returning.{echo_returns}
use boost_windows_tls.Examples.HttpsClient.{client_context}
use boost_windows_tls.Tests.Streaming.{read_of}
use boost_windows_tls.Tests.Fixtures.{
  World, handle, layer, layer-IsStream, layer-ReportsCleanly, certificates, record_size, read_chunk,
  chunk, put_back,
}
use boost_windows_tls.Tests.Protocol.{open_record, extends, opened, reads, no_input}
use boost_windows_tls.Tests.Clients.{zeros}
use boost_windows_tls.Tests.Servers.{turn_of}
use boost_windows_tls.Tests.Peering.{
  sealer, sealer-ReportsSizes, writer, two_writes, idle, arriving, two_sent, three, sent,
}

sealer-DecryptsInPlace : DecryptsInPlace sealer
sealer-DecryptsInPlace = record {
  front = λ h s a w. ground arith;
  plain_inside = λ h s a w typed. (1, ground arith, ground arith);
  extra_inside = λ h s a w typed. (record_size a, ground arith, ground arith);
  untouched = λ h s a w e. ground arith;
}

sealer-AlwaysHasData : AlwaysHasData sealer
sealer-AlwaysHasData = record { typed = λ h s a w e. ground arith }

abbrev sealed : Protocol sealer layer
sealed = record {
  Keys = Unit {0};
  keys = λ w. tt;
  open_record = open_record;
  incoming = λ w. concat w.incoming;
  extends = extends;
  opened = opened;
  waiting = λ h s a w e. refl;
  no_input = no_input;
  reads = λ n w h. (reads n w.incoming w h, refl);
}

abbrev echoing : Platform World
echoing = record {
  sspi = sealer;
  asio = reference;
  layer = layer;
  certs = certificates;
  debug = true;
}

abbrev counted : ℕ → Completion World → Completion World
counted n c = record c { count = n + c.count }

-- A write with a buffer of one part, then with what it left.
abbrev write_rest : ℕ → Bytes → TlsStream World → Run (Completion World)
write_rest zero bs t = unfinished
write_rest (suc n) [] t =
    finished (record { error = no_error; count = 0; delivered = []; stream = t })
write_rest (suc n) (b ∷ bs) t = run_then (async_write_some echoing 6 ((b ∷ bs) ∷ []) t) (λ c.
    let rest = write_rest n (drop c.count (b ∷ bs)) c.stream in
    if failed c.error then finished c else run_map (counted c.count) rest)

write_rest-Composed : Composed echoing write_rest
write_rest-Composed zero bs t c e fine = absurd (ground arith)
write_rest-Composed (suc n) [] t c e fine = all_written refl (ground arith)
write_rest-Composed (suc n) (b ∷ bs) t c e fine =
    let (a, ends, same) =
      run_then_ends (async_write_some echoing 6 ((b ∷ bs) ∷ []) t)
        (λ c.
          let rest = write_rest n (drop c.count (b ∷ bs)) c.stream in
          if failed c.error then finished c else run_map (counted c.count) rest)
        c e in
    elim (Bool-cases (failed a.error)) [
      | inl bad ↦ absurd (ground (arith, bad, same, fine))
      | inr good ↦
          let mapped : run_map (counted a.count) (write_rest n (drop a.count (b ∷ bs)) a.stream)
              ≡ finished c =
            ground (arith, good, same) in
          let (r, later, made) =
            run_map_ends (counted a.count) (write_rest n (drop a.count (b ∷ bs)) a.stream) c
              mapped in
          let behind =
            write_rest-Composed n (drop a.count (b ∷ bs)) a.stream r later
              (ground (arith, made, fine)) in
          let split : b ∷ bs ≡ take a.count ((b ∷ bs) ++ []) ++ drop a.count (b ∷ bs) =
            rw (append-nil (b ∷ bs)) (sym (take-append-drop a.count (b ∷ bs))) in
          rw made (some_written 6 ((b ∷ bs) ∷ []) a ends good behind split)
    ]

chunk_keeps_sent : (bs : Bytes) (w : World) → (chunk bs w).world.sent ≡ w.sent
chunk_keeps_sent [] w = refl
chunk_keeps_sent (b ∷ bs) w = refl

read_keeps_sent : (n : ℕ) (cs : List Bytes) (w : World) → (read_chunk n cs w).world.sent ≡ w.sent
read_keeps_sent n [] w = refl
read_keeps_sent n (c ∷ cs) w =
    chunk_keeps_sent (take n c) (record w { incoming = put_back (drop n c) cs })

both_ways : Duplex sealed writer
unfolding writer
both_ways = record {
  encrypts = λ h s a w. (refl, ground arith);
  asks = λ h w. (refl, refl);
  sends = λ bs w. (refl, refl);
  decrypts = λ h s a w. (refl, ground arith);
  reads = λ n w. (refl, ap sent (read_keeps_sent n w.incoming w));
}

abbrev session : Session World
session = record {
  stream = construct zeros zeros zeros arriving;
  data_ = zeros;
  phase = reading;
  reports = [];
}

abbrev next : Session World → Turn World
next s = turn_of s (complete echoing client_context write_rest 6 s)

abbrev first_in : Turn World
first_in = next session

abbrev first_out : Turn World
first_out = next first_in.session

abbrev second_in : Turn World
second_in = next first_out.session

abbrev second_out : Turn World
second_out = next second_in.session

served : Serves echoing client_context write_rest session three three second_out.session
unfolding complete Connection.async_read_some Async.Read.async_read Async.Read.run Async.Read.resume
    Async.Read.reenter Async.Read.loop Decrypt.decrypt Decrypt.decrypt_received construct
    Stream.new_stream new_decrypt Async.Read.perform Async.Read.answer Decrypt.size_read
    Decrypt.deliver EchoServer.on_read EchoServer.on_write Decrypt.keep_extra DecryptedData.fill
    DecryptedData.get Connection.async_write_some Async.Write.async_write_some Async.Write.run
    Async.Write.resume Encrypt.encrypt Encrypt.prepare Encrypt.lay_out Encrypt.new_encrypt_buffers
served =
    completes {ins' = 12 ∷ []} {outs' = three} 6 first_in refl
      (completes {ins' = 12 ∷ []} {outs' = 12 ∷ []} 6 first_out refl
        (completes {ins' = []} {outs' = 12 ∷ []} 6 second_in refl
          (completes {ins' = []} {outs' = []} 6 second_out refl (waits refl refl refl) refl refl)
          refl refl)
        refl refl)
      refl refl

goes_on : second_out.session.phase ≡ reading
unfolding complete Connection.async_read_some Async.Read.async_read Async.Read.run Async.Read.resume
    Async.Read.reenter Async.Read.loop Decrypt.decrypt Decrypt.decrypt_received construct
    Stream.new_stream new_decrypt Async.Read.perform Async.Read.answer Decrypt.size_read
    Decrypt.deliver EchoServer.on_read EchoServer.on_write Decrypt.keep_extra DecryptedData.fill
    DecryptedData.get Connection.async_write_some Async.Write.async_write_some Async.Write.run
    Async.Write.resume Encrypt.encrypt Encrypt.prepare Encrypt.lay_out Encrypt.new_encrypt_buffers
goes_on = refl

-- What the server has sent is what its peer is to receive.
abbrev answered : World
answered = record { freed = []; incoming = (2 ∷ 10 ∷ []) ∷ (11 ∷ 1 ∷ 12 ∷ []) ∷ []; sent = [] }

has_sent : sent second_out.session.stream.world.sent ≡ concat answered.incoming
unfolding complete Connection.async_read_some Async.Read.async_read Async.Read.run Async.Read.resume
    Async.Read.reenter Async.Read.loop Decrypt.decrypt Decrypt.decrypt_received construct
    Stream.new_stream new_decrypt Async.Read.perform Async.Read.answer Decrypt.size_read
    Decrypt.deliver EchoServer.on_read EchoServer.on_write Decrypt.keep_extra DecryptedData.fill
    DecryptedData.get Connection.async_write_some Async.Write.async_write_some Async.Write.run
    Async.Write.resume Encrypt.encrypt Encrypt.prepare Encrypt.lay_out Encrypt.new_encrypt_buffers
has_sent = refl

abbrev read_once : SspiDecrypt → World → ReadSome World
read_once d w = read_of (read_some sealer reference layer true 4 handle (8 ∷ []) no_error d w)

abbrev first_read : ReadSome World
first_read = read_once (new_decrypt zeros zeros) answered

abbrev second_read : ReadSome World
second_read = read_once first_read.decrypt first_read.world

two_reads :
    Receives sealer reference layer true handle
      (new_decrypt zeros zeros)
      answered
      three
      second_read.decrypt
      second_read.world
unfolding read_some Stream.handle_decrypted Decrypt.decrypt Decrypt.decrypt_received Decrypt.deliver
    Decrypt.keep_extra DecryptedData.get DecryptedData.fill Decrypt.size_read new_decrypt
two_reads =
    read {others = 12 ∷ []} 4 (8 ∷ []) first_read refl refl
      (read {others = []} 4 (8 ∷ []) second_read refl refl (read_all refl refl refl) refl) refl

echo_returns_example : (rest : Bytes) × (three ≡ three ++ rest)
unfolding writer construct Stream.new_stream
echo_returns_example =
    echo_returns echoing reference-IsDocumented sealer-ReportsSizes sealer-DecryptsInPlace
      layer-IsStream layer-ReportsCleanly sealer-AlwaysHasData sealed client_context write_rest
      write_rest-Composed sealer sealer-ReportsSizes sealer-DecryptsInPlace layer layer-IsStream
      sealed writer writer both_ways session second_out.session three three three three zeros zeros
      zeros zeros handle handle idle two_sent answered second_read.world second_read.decrypt
      (λ k. refl) (λ k. refl) refl (ground (arith, goes_on)) refl refl refl refl refl has_sent
      two_writes served two_reads
