-- ===== src/Examples/AsyncHttpsClient/Verifying.antt =====
-- examples/async_https_client.cpp: to whom the session writes its request.
use boost_windows_tls.Common.{ℕ, ◌≡◌, refl, arith, false}
use boost_windows_tls.ErrorCode.{ErrorCode, failed}
use boost_windows_tls.Stream.{finished}
use boost_windows_tls.Async.HandshakeLaws.{ClearsErrors}
use boost_windows_tls.Connection.{
  Platform, Completion, run_map_ends, async_handshake, async_shutdown,
}
use boost_windows_tls.Connection.Verifying.{NeverAtOnce, Shaken, async_handshake-Shaken}
use boost_windows_tls.Handshake.{client}
use boost_windows_tls.Examples.HttpsClient.{client_context}
use boost_windows_tls.Examples.HttpsClient.Verifying.{client_context_verifies}
use boost_windows_tls.Examples.AsyncHttpsClient.{
  AsyncWeb, Phase, resolving, connecting, handshaking, writing, reading, closing, over, Session,
  on_resolve, on_connect, on_handshake, on_write, on_read, on_shutdown, complete,
}

module _ {World : Type 0} (p : Platform World) (never : NeverAtOnce p.sspi)
    (clean : ClearsErrors p.layer) where
  handshaken_to_write :
      (ec : ErrorCode) (s : Session World)
      → (on_handshake ec s).phase ≡ writing
      → (failed ec ≡ false) × ((on_handshake ec s).stream ≡ s.stream)
  unfolding on_handshake
  handshaken_to_write ec s e = ground arith

  module _ (web : AsyncWeb World) where
    -- No other handler leads to the request.
    only_handshake :
        (fuel : ℕ) (s s' : Session World) (phase : Phase)
        → s.phase ≡ phase
        → complete p web fuel s ≡ finished s'
        → s'.phase ≡ writing
        → phase ≡ handshaking
    unfolding complete on_resolve on_connect on_write on_read on_shutdown
    only_handshake fuel s s' handshaking at e there = refl
    only_handshake fuel s s' resolving at e there = absurd (ground (arith, at))
    only_handshake fuel s s' (connecting results) at e there = absurd (ground (arith, at))
    only_handshake fuel s s' over at e there = absurd (ground (arith, at))
    only_handshake fuel s s' writing at e there =
        let (c, ends, same) =
          run_map_ends (λ (c : Completion World). on_write c.error (record s { stream = c.stream }))
            (web.async_write fuel s.target.host s.target.path s.stream) s' (ground (arith, at)) in
        absurd (ground (arith, same, there))
    only_handshake fuel s s' reading at e there =
        let (c, ends, same) =
          run_map_ends
            (λ (c : Completion World). on_read c.error c.delivered (record s { stream = c.stream }))
            (web.async_read fuel s.stream) s' (ground (arith, at)) in
        absurd (ground (arith, same, there))
    only_handshake fuel s s' closing at e there =
        let (c, ends, same) =
          run_map_ends
            (λ (c : Completion World). on_shutdown web.eof c.error (record s { stream = c.stream }))
            (async_shutdown p fuel s.stream) s' (ground (arith, at)) in
        absurd (ground (arith, same, there))

    -- A session comes to write its request only by a handshake, begun on the stream that it had,
    -- that either has verified the certificate of its peer, in a context that verifies, or has
    -- ended unverified behind an iteration in which the package finished with a token to be sent or
    -- with input to spare. The first call of the package for a client is never to finish a
    -- handshake, and the next layer is to clear the error code when it does not fail.
    pub writes-Shaken :
        (fuel : ℕ) (s s' : Session World)
        → complete p web fuel s ≡ finished s'
        → s'.phase ≡ writing
        → Shaken p client_context s.stream s'.stream
    unfolding complete
    writes-Shaken fuel s s' e there =
        let at = only_handshake fuel s s' s.phase refl e there in
        let (c, ends, same) =
          run_map_ends
            (λ (c : Completion World). on_handshake c.error (record s { stream = c.stream }))
            (async_handshake p client_context fuel client s.stream) s' (ground (arith, at)) in
        let (fine, stream) =
          handshaken_to_write c.error (record s { stream = c.stream }) (rw same at there) in
        rw (same, stream)
          (async_handshake-Shaken p never client_context client_context_verifies clean fuel s.stream
            c ends fine)
