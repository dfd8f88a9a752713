-- ===== src/Stream/Keeping.antt =====
-- stream.hpp, `read_some`: what of the world it leaves alone.
use boost_windows_tls.Common.{
  ℕ, zero, suc, ◌≡◌, ◌∙◌, arith, Bool, some, List, Array, length, Option-cases, inl, inr,
}
use boost_windows_tls.ErrorCode.{ErrorCode}
use boost_windows_tls.Asio.{Asio}
use boost_windows_tls.Buffers.{Sequence4}
use boost_windows_tls.Schannel.{Handle, Schannel}
use boost_windows_tls.NextLayer.{NextLayer}
use boost_windows_tls.Decrypt.{new_decrypt, SspiDecrypt, Stepped, decrypt, armed}
use boost_windows_tls.Decrypt
use boost_windows_tls.Stream.{Run, finished, ReadSome, read_some, handle_decrypted, receive}

module _ {World : Type 0} (sspi : Schannel World) (net : Asio) (layer : NextLayer World)
    (debug : Bool) {X : Type 0} (f : World → X)
    (decrypts : (h : Handle) (s : Sequence4) (a : Array) (w : World)
      → f (sspi.decrypt_message h s a w).world ≡ f w)
    (reads : (n : ℕ) (w : World) → f (layer.read_some n w).world ≡ f w) where
  decrypt_keeps :
      (ctxt : Handle) (sizes : List ℕ) (d : SspiDecrypt) (w : World) (s : Stepped World)
      → decrypt sspi net debug ctxt sizes d w ≡ some s
      → f s.world ≡ f w
  unfolding decrypt
  decrypt_keeps ctxt sizes d w s e =
      ground (arith, decrypts ctxt (armed d.buffers) d.encrypted_data w)

  handle_decrypted_keeps :
      (rest : ErrorCode → SspiDecrypt → World → Run (ReadSome World)) (ec : ErrorCode)
      (s : Stepped World) (r : ReadSome World)
      → ((ec' : ErrorCode) (d' : SspiDecrypt) (w' : World)
          → rest ec' d' w' ≡ finished r
          → f r.world ≡ f w')
      → handle_decrypted sspi net layer debug rest ec s ≡ finished r
      → f r.world ≡ f s.world
  unfolding handle_decrypted
  handle_decrypted_keeps rest ec s r later e =
      let n = layer.read_some s.decrypt.input_buffer.size s.world in
      ground (
        arith,
        reads s.decrypt.input_buffer.size s.world,
        later n.error (Decrypt.size_read net (length n.bytes) (receive n.bytes s.decrypt)) n.world,
      )

  -- What no call of a read touches, the read leaves as it was.
  pub read_some_keeps :
      (fuel : ℕ) (ctxt : Handle) (sizes : List ℕ) (ec : ErrorCode) (d : SspiDecrypt) (w : World)
      (r : ReadSome World)
      → read_some sspi net layer debug fuel ctxt sizes ec d w ≡ finished r
      → f r.world ≡ f w
  unfolding read_some
  read_some_keeps zero ctxt sizes ec d w r e = ground arith
  read_some_keeps (suc fuel) ctxt sizes ec d w r e =
      elim (Option-cases (decrypt sspi net debug ctxt sizes d w)) [
        | inl stopped ↦ ground (arith, stopped)
        | inr (s, stepped) ↦
            handle_decrypted_keeps (read_some sspi net layer debug fuel ctxt sizes) ec s r
              (λ ec' d' w' e'. read_some_keeps fuel ctxt sizes ec' d' w' r e')
              (ground (arith, stepped))
            ∙ decrypt_keeps ctxt sizes d w s stepped
      ]
