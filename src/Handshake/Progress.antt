-- ===== src/Handshake/Progress.antt =====
-- What one call of the handshake machine uses up, if it asks for another one.
use boost_windows_tls.Common.{ℕ, ◌+◌, ◌≤◌, ◌<◌, ◌≡◌, true, ◌==◌, if◌then◌else◌, arith, some}
use boost_windows_tls.Asio.{Asio, IsDocumented}
use boost_windows_tls.ContextBuffer.{is_empty, assign_temporary}
use boost_windows_tls.Schannel.{Schannel}
use boost_windows_tls.Context.{CertApi, Context}
use boost_windows_tls.Handshake.{
  SspiHandshake, Session, HandshakeType, data_needed, data_available, call_package, digest, step,
  conclude, reset_input, reuse_extra, verify_peer,
}
use boost_windows_tls.Handshake.Steps.{IsValid}

-- The world measures what is still to come; calls of the package add nothing to it.
pub record Measures {World : Type 0} (sspi : Schannel World) : Type 0 where
  pub remaining : World → ℕ
  pub calls :
      (type : HandshakeType) (s : Session World)
      → remaining (call_package sspi type s).world ≤ remaining s.world
  pub frees : (a : ℕ) (w : World) → remaining (sspi.free_context_buffer a w) ≤ remaining w

-- Whether a token is held, and whether there is input.
abbrev pub held : SspiHandshake → ℕ
held h = if is_empty h.out_buffer then 0 else 1

abbrev pub fed : SspiHandshake → ℕ
fed h = if h.input_buffers.b0.cb_buffer == 0 then 0 else 1

module _ {World : Type 0} (sspi : Schannel World) (measure : Measures sspi) (net : Asio)
    (laws : IsDocumented net) (api : CertApi World) (ctx : Context) where
  -- A call that needs data has kept no token, and there is room for the data.
  pub step_needs :
      (s s' : Session World)
      → IsValid s.handshake
      → step sspi net true api ctx s ≡ some (data_needed, s')
      → (held s'.handshake ≡ 0)
        × (0 < s'.handshake.in_buffer.size)
        × (measure.remaining s'.world ≤ measure.remaining s.world)
  unfolding step digest conclude reset_input verify_peer reuse_extra
  step_needs s s' v e = ground (arith, measure.calls s.handshake.handshake_type s)

  -- A call that has a token either held it before, or has used up the input for it.
  pub step_sends :
      (s s' : Session World)
      → step sspi net true api ctx s ≡ some (data_available, s')
      → (fed s'.handshake + 1 ≤ held s.handshake + fed s.handshake)
        × (measure.remaining s'.world ≤ measure.remaining s.world)
  unfolding step digest conclude reset_input verify_peer assign_temporary
  step_sends s s' e =
      let r = call_package sspi s.handshake.handshake_type s in
      ground (arith, measure.calls s.handshake.handshake_type s, measure.frees 0 r.world)
