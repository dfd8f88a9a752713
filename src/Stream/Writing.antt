-- ===== src/Stream/Writing.antt =====
-- What `write_some` hands to the next layer.
use boost_windows_tls.Common.{◌≡◌, arith, List, Bytes, false}
use boost_windows_tls.Windows.{sec_e_ok}
use boost_windows_tls.ErrorCode.{no_error, failed}
use boost_windows_tls.Asio.{Asio, IsDocumented, concat}
use boost_windows_tls.Buffers.{const_buffers}
use boost_windows_tls.Schannel.{Handle, Schannel}
use boost_windows_tls.NextLayer.{NextLayer}
use boost_windows_tls.Encrypt.{EncryptBuffers, prepare, encrypt}
use boost_windows_tls.Encrypt.Layout.{
  IsSized, IsLaidOut, ReportsSizes, prepare-IsLaidOut, encrypt_outcome,
}
use boost_windows_tls.Stream.{write_some}

module _ (net : Asio) (laws : IsDocumented net) {World : Type 0} (sspi : Schannel World)
    (reports : ReportsSizes sspi) (layer : NextLayer World) where
  -- A write that reports no error has encrypted exactly the message that the layout describes, has
  -- handed the four buffers that EncryptMessage left to the next layer in one write, and returns
  -- the number of bytes of the source in that message. The sizes are to be consistent before, and
  -- those that the package reports to fit 32 bits together.
  pub write_some_sends :
      (ctxt : Handle) (source : List Bytes) (e : EncryptBuffers) (w : World)
      → IsSized e
      → let out = write_some sspi net layer ctxt source no_error e w in
        let p = prepare sspi net ctxt source e w in
        let r = sspi.encrypt_message ctxt p.buffers.buffers p.buffers.message p.world in
        failed out.error ≡ false
        → IsLaidOut source out.count p.buffers
          × (r.status ≡ sec_e_ok)
          × (out.world ≡ (layer.write (concat (const_buffers r.memory r.buffers)) r.world).world)
          × IsSized out.encrypt
  unfolding write_some encrypt
  write_some_sends ctxt source e w v fine =
      let p = prepare sspi net ctxt source e w in
      let q = prepare-IsLaidOut net laws sspi reports ctxt source e w v in
      ground (arith, encrypt_outcome net laws sspi reports ctxt source no_error e w, q)
