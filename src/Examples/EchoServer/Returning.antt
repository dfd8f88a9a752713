-- ===== src/Examples/EchoServer/Returning.antt =====
-- examples/echo_server.cpp between the writes and the reads of its peer.
use mathlib.Core.List.{append_cancel_left}
use boost_windows_tls.Common.{
  ◌≡◌, ◌≢◌, refl, sym, ap, ◌∙◌, none, [], ◌++◌, append_assoc, append-nil, Bytes, Array,
}
use boost_windows_tls.Asio.{IsDocumented}
use boost_windows_tls.Schannel.{Handle, Schannel}
use boost_windows_tls.NextLayer.{NextLayer, IsStream}
use boost_windows_tls.Context.{Context}
use boost_windows_tls.DecryptedData.{available}
use boost_windows_tls.Decrypt.{new_decrypt, SspiDecrypt}
use boost_windows_tls.Decrypt.Deliver.{DecryptsInPlace}
use boost_windows_tls.Encrypt.{new_encrypt_buffers, wire}
use boost_windows_tls.Encrypt.Layout.{ReportsSizes}
use boost_windows_tls.Stream.Plaintext.{no_more, Decodes, Protocol, Ahead}
use boost_windows_tls.Stream.Peers.{
  new_encrypt_buffers-IsSized, Sends-Decodes, Receives-Conserves, fresh_waiting, Sends, Receives,
  Seals,
}
use boost_windows_tls.Connection.Duplex.{Duplex, Composed}
use boost_windows_tls.Examples.EchoServer.Carrying.{Serves-Carries}
use boost_windows_tls.Connection.{AsyncWrite, Platform}
use boost_windows_tls.Stream.Counting.{AlwaysHasData}
use boost_windows_tls.Examples.EchoServer.Echoing.{Serves-Echoes}
use boost_windows_tls.Async.ReadLaws.{ReportsCleanly}
use boost_windows_tls.Examples.EchoServer.{Session, reading, over, Serves, pending}

module _ {World Peer : Type 0} (p : Platform World) (laws : IsDocumented p.asio)
    (reports : ReportsSizes p.sspi) (in_place : DecryptsInPlace p.sspi) (stream : IsStream p.layer)
    (clean : ReportsCleanly p.layer) (has : AlwaysHasData p.sspi)
    (protocol : Protocol p.sspi p.layer) (ctx : Context) (async_write : AsyncWrite World)
    (composed : Composed p async_write) (client : Schannel Peer)
    (client_reports : ReportsSizes client) (client_in_place : DecryptsInPlace client)
    (client_layer : NextLayer Peer) (client_stream : IsStream client_layer)
    (client_protocol : Protocol client client_layer)
    (request : Seals client client_layer protocol.open_record)
    (reply : Seals p.sspi p.layer client_protocol.open_record)
    (duplex : Duplex protocol reply) where
  -- What a client reads back from the echo server is the front of what it has sent: after any run
  -- of successful blocking writes by a client that had written nothing, any completions of a
  -- session that waits for a read on a stream that has neither read nor written, and any run of
  -- successful blocking reads by a client that had read nothing, the bytes that the client's writes
  -- consumed are the bytes that its reads delivered and a rest, provided the session is not over.
  -- What arrives at each stream is to be what the other side sent. When `async_write` succeeds, it
  -- is to have taken its buffer by successful calls of `async_write_some`, one behind the other.
  -- The package of each side is to report sizes that fit 32 bits, to seal a message that is laid
  -- out as it asks into one record that the other's opens with the same keys, and to decrypt in
  -- place; nothing is no record. The server's package is to give a data buffer for every record,
  -- and its reads and its writes are not to touch each other's keys and bytes. Both next layers are
  -- to be streams that keep to their buffers, and the server's is to clear the error code when it
  -- does not fail and to bring no bytes when it does.
  pub echo_returns :
      (s s' : Session World) (ins outs sent back : Bytes)
      (encrypted decrypted encrypted' decrypted' : Array) (a b : Handle) (w w' v v' : Peer)
      (d' : SspiDecrypt)
      → ((k : protocol.Keys) → protocol.open_record k [] ≡ none)
      → ((k : client_protocol.Keys) → client_protocol.open_record k [] ≡ none)
      → s.phase ≡ reading
      → s'.phase ≢ over
      → s.stream.sspi_stream.decrypt ≡ new_decrypt encrypted decrypted
      → s.stream.sspi_stream.encrypt ≡ new_encrypt_buffers
      → request.sealing w ≡ protocol.keys s.stream.world
      → request.sent w' ≡ request.sent w ++ protocol.incoming s.stream.world
      → reply.sealing s.stream.world ≡ client_protocol.keys v
      → reply.sent s'.stream.world ≡ reply.sent s.stream.world ++ client_protocol.incoming v
      → Sends client p.asio client_layer a new_encrypt_buffers w sent w'
      → Serves p ctx async_write s ins outs s'
      → Receives client p.asio client_layer p.debug b
          (new_decrypt encrypted' decrypted')
          v
          back
          d'
          v'
      → (rest : Bytes) × (sent ≡ back ++ rest)
  echo_returns s s' ins outs sent back encrypted decrypted encrypted' decrypted' a b w w' v v' d'
        nothing nothing' at on fresh fresh' same_keys carried same_keys' carried' writes serves
        reads =
      let (none_received, none_waits, valid) =
        fresh_waiting p.asio laws p.debug p.sspi in_place p.layer stream protocol encrypted
          decrypted in
      let (none_received', none_waits', valid') =
        fresh_waiting p.asio laws p.debug client client_in_place client_layer client_stream
          client_protocol encrypted' decrypted' in
      let (wire, appended, decodes) =
        Sends-Decodes p.asio laws client client_reports client_layer protocol.open_record request a
          new_encrypt_buffers w w' sent nothing new_encrypt_buffers-IsSized writes in
      let came : wire ≡ protocol.incoming s.stream.world =
        append_cancel_left (request.sent w) wire (protocol.incoming s.stream.world)
          (sym appended ∙ carried) in
      let ahead : Ahead protocol s.stream.sspi_stream.decrypt s.stream.world sent =
        rw (fresh, none_received, sym same_keys, sym came) decodes in
      let ((left, later, split, kept), (wire', appended', opens), sized) =
        Serves-Carries p laws reports protocol client_protocol.open_record reply duplex in_place
          stream clean ctx async_write composed has s s' sent ins outs (λ shaking. cc) on
          (rw fresh valid) (rw fresh' new_encrypt_buffers-IsSized) ahead serves in
      let (unwritten, echoed, same) =
        Serves-Echoes p laws has clean ctx async_write s s' ins outs serves in
      let came' : wire' ≡ client_protocol.incoming v =
        append_cancel_left (reply.sent s.stream.world) wire' (client_protocol.incoming v)
          (sym appended' ∙ carried') in
      let open_ended = opens [] [] (no_more (nothing' (reply.sealing s'.stream.world)) refl) in
      let answered : Decodes client_protocol.open_record (reply.sealing s.stream.world) wire' outs =
        rw (append-nil wire', append-nil outs) at open_ended in
      let ahead' : Ahead client_protocol (new_decrypt encrypted' decrypted') v outs =
        rw (none_received', sym same_keys', sym came') answered in
      let (left', later', split', kept') =
        Receives-Conserves p.asio laws p.debug client client_in_place client_layer client_stream
          client_protocol b (new_decrypt encrypted' decrypted') d' v v' outs back valid' ahead'
          reads in
      let r₁ = available s'.stream.sspi_stream.decrypt.decrypted_data ++ left in
      let r₂ = available d'.decrypted_data ++ left' in
      let came_in : sent ≡ ins ++ r₁ =
        ap (◌++ sent) (sym (ap (λ x. available x.decrypted_data) fresh ∙ none_waits)) ∙ split in
      let went_out : ins ≡ outs ++ unwritten = ap (λ ph. pending ph ++ ins) (sym at) ∙ echoed in
      let came_back : outs ≡ back ++ r₂ = ap (◌++ outs) (sym none_waits') ∙ split' in
      (
        r₂ ++ (unwritten ++ r₁),
        came_in
            ∙ ap (◌++ r₁) went_out
            ∙ append_assoc outs unwritten r₁
            ∙ ap (◌++ (unwritten ++ r₁)) came_back
            ∙ append_assoc back r₂ (unwritten ++ r₁),
      )
