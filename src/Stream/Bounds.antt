-- ===== src/Stream/Bounds.antt =====
-- stream.hpp, `handshake`: the input array and what is read into it.
use boost_windows_tls.Common.{
  ℕ, ◌+◌, ◌≤◌, ◌≡◌, sym, ap, ◌∙◌, arith, Bool, some, Bytes, length, ◌++◌, slice, store,
  slice-store_end,
}
use boost_windows_tls.Windows.{add_ulong}
use boost_windows_tls.ErrorCode.{ErrorCode}
use boost_windows_tls.Asio.{Asio, IsDocumented, buffer}
use boost_windows_tls.Schannel.{Schannel}
use boost_windows_tls.Context.{CertApi, Context}
use boost_windows_tls.NextLayer.{NextLayer, IsStream}
use boost_windows_tls.Handshake.{
  SspiHandshake, Session, HandshakeState, step, input_size, call_package, size_written,
}
use boost_windows_tls.Handshake
use boost_windows_tls.Handshake.Steps.{IsValid, received, TakesInput, digest_input}
use boost_windows_tls.Stream.Invariants.{Kept, handshake_loop_inv}
use boost_windows_tls.Stream.{finished, receive_handshake, handshake_loop}

module _ (net : Asio) (laws : IsDocumented net) where
  pub read-IsValid :
      (h : SspiHandshake) (bs : Bytes)
      → IsValid h
      → length bs ≤ h.in_buffer.size
      → IsValid (Handshake.size_read net (length bs) (receive_handshake bs h))
  unfolding Handshake.size_read
  read-IsValid h bs v small =
      let cb = h.input_buffers.b0.cb_buffer in
      let n : add_ulong cb (length bs) ≡ cb + length bs = omega (arith, v.room, v.fits) in
      ground (arith, n, laws.advance_lem (buffer input_size) (cb + length bs))

  -- Bytes that a read of the next layer wrote into `in_buffer`, no more than it has room for, join
  -- the received ones, if those fit the array.
  pub read_joins_received :
      (h : SspiHandshake) (bs : Bytes)
      → IsValid h
      → length bs ≤ h.in_buffer.size
      → received (Handshake.size_read net (length bs) (receive_handshake bs h)) ≡ received h ++ bs
  unfolding Handshake.size_read
  read_joins_received h bs v small =
      let cb = h.input_buffers.b0.cb_buffer in
      let n : add_ulong cb (length bs) ≡ cb + length bs = omega (arith, v.room, v.fits) in
      let z : 0 + cb ≡ cb = omega arith in
      rw n (
        ap (λ k. slice (store h.input_data k bs) 0 (cb + length bs)) (v.at_end ∙ sym z)
        ∙ slice-store_end h.input_data 0 cb bs)

  module _ {World : Type 0} (sspi : Schannel World) (takes : TakesInput sspi) (debug : Bool)
      (api : CertApi World) (ctx : Context) where
    pub step-IsValid :
        (s s' : Session World) (state : HandshakeState)
        → IsValid s.handshake
        → step sspi net debug api ctx s ≡ some (state, s')
        → IsValid s'.handshake
    unfolding step
    step-IsValid s s' state v e =
        ground (arith, digest_input sspi net laws debug api ctx s s' state takes v)

    pub written-IsValid :
        (n : ℕ) (s s' : Session World)
        → IsValid s.handshake
        → size_written sspi debug n s ≡ some s'
        → IsValid s'.handshake
    unfolding size_written
    written-IsValid n s s' v e = ground arith

    module _ (layer : NextLayer World) (stream : IsStream layer) where
      iteration-Kept : Kept sspi net layer debug api ctx (λ s. IsValid s.handshake)
      iteration-Kept = record {
        stepped = step-IsValid;
        read_failed = λ s v. record { fits = v.fits; at_end = v.at_end; room = v.room };
        read = λ s v.
            read-IsValid s.handshake (layer.read_some s.handshake.in_buffer.size s.world).bytes v
              (stream.read_within s.handshake.in_buffer.size s.world);
        sent = λ s v. v;
        taken = written-IsValid;
      }

      -- If the received bytes of a handshake fit the input array, with `in_buffer` being the free
      -- rest of it, then the same holds of the session that the blocking handshake returns, however
      -- it ends. The package is to leave the size of its input, and never to report more bytes to
      -- spare than it was given, and the next layer to stay within the buffer that it reads into.
      pub handshake_loop-IsValid :
          (fuel : ℕ) (ec : ErrorCode) (s : Session World) (out : ErrorCode × Session World)
          → IsValid s.handshake
          → handshake_loop sspi net layer debug api ctx fuel ec s ≡ finished out
          → IsValid out.1.handshake
      handshake_loop-IsValid fuel ec s out v e =
          handshake_loop_inv sspi net layer debug api ctx iteration-Kept fuel ec s out v e
