-- ===== src/Connection/Verifying.antt =====
-- stream.hpp: a client's handshake on a stream, and the certificate of its peer.
use boost_windows_tls.Async.Handshake.{async_handshake as coroutine}
use boost_windows_tls.Async.HandshakeLaws.{ClearsErrors, async_handshake_sound}
use boost_windows_tls.Common.{sym, ap, ◌∙◌, ℕ, ◌≡◌, ◌≢◌, refl, arith, true, false, none}
use boost_windows_tls.Windows.{sec_e_ok}
use boost_windows_tls.ErrorCode.{ErrorCode, failed, no_error}
use boost_windows_tls.ContextBuffer.{assign_temporary}
use boost_windows_tls.Schannel.{Schannel, InitializeArgs}
use boost_windows_tls.Context.{Context}
use boost_windows_tls.Handshake.{Session, client, start, credentials}
use boost_windows_tls.Flags.{client_context_flags}
use boost_windows_tls.Buffers.{handshake_output_buffers}
use boost_windows_tls.Stream.{finished, handshake_loop}
use boost_windows_tls.Stream
use boost_windows_tls.Stream.Succeeding.{Succeeds, handshake_loop-Succeeds}
use boost_windows_tls.Connection.{
  run_map, async_handshake, Platform, TlsStream, Completion, session_of, after_handshake,
  run_map_ends, handshake,
}

-- The first call of the package for a client never finishes the handshake.
pub record NeverAtOnce {World : Type 0} (sspi : Schannel World) : Type 0 where
  pub goes_on :
      (a : InitializeArgs) (w : World)
      → a.existing ≡ none
      → (sspi.initialize_security_context a w).status ≢ sec_e_ok

module _ {World : Type 0} (p : Platform World) (ctx : Context) where
  -- How a client's handshake on the first stream came to succeed as the second.
  abbrev pub Shaken : TlsStream World → TlsStream World → Type 0
  Shaken t t' =
      Succeeds p.sspi p.asio p.layer p.debug p.certs ctx (start p.sspi ctx client (session_of t))
        (session_of t')

module _ {World : Type 0} (p : Platform World) (never : NeverAtOnce p.sspi) (ctx : Context)
    (verifies : ctx.verify_server ≡ true) where
  start_unfinished :
      (s : Session World) → (start p.sspi ctx client s).handshake.last_error ≢ sec_e_ok
  unfolding start assign_temporary
  start_unfinished s =
      let r = p.sspi.acquire_credentials_handle (credentials client ctx) s.world in
      let args : InitializeArgs = record {
        credential = r.credential;
        existing = none;
        target_name = s.handshake.server_hostname;
        context_req = client_context_flags;
        input = none;
        output = handshake_output_buffers;
      } in
      let going = never.goes_on args r.world refl in ground (arith, going)

  -- A client's handshake that reports no error succeeded as the loop does.
  pub handshake-Shaken :
      (fuel : ℕ) (ec : ErrorCode) (t : TlsStream World) (c : Completion World)
      → handshake p ctx fuel client ec t ≡ finished c
      → failed c.error ≡ false
      → Shaken p ctx t c.stream
  unfolding handshake Stream.handshake
  handshake-Shaken fuel ec t c e fine =
      let begun = start p.sspi ctx client (session_of t) in
      let (out, ends, same) =
        run_map_ends (after_handshake t)
          (handshake_loop p.sspi p.asio p.layer p.debug p.certs ctx fuel ec begun) c e in
      rw same (
        handshake_loop-Succeeds p.sspi p.asio p.layer p.debug p.certs ctx verifies fuel ec begun out
          (start_unfinished (session_of t)) ends (ground (arith, same, fine)))

  -- An asynchronous one as well.
  pub async_handshake-Shaken :
      (clean : ClearsErrors p.layer) (fuel : ℕ) (t : TlsStream World) (c : Completion World)
      → async_handshake p ctx fuel client t ≡ finished c
      → failed c.error ≡ false
      → Shaken p ctx t c.stream
  unfolding async_handshake handshake
  async_handshake-Shaken clean fuel t c e fine =
      let (out, ends, same) =
        run_map_ends (after_handshake t)
          (coroutine p.sspi p.asio p.debug p.certs ctx p.layer fuel client (session_of t)) c e in
      let blocking =
        async_handshake_sound p.sspi p.asio p.debug p.certs ctx p.layer clean fuel client
          (session_of t) out ends in
      handshake-Shaken fuel no_error t c
        (ap (run_map (after_handshake t)) blocking ∙ ap finished (sym same)) fine
