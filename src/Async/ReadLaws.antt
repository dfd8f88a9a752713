-- ===== src/Async/ReadLaws.antt =====
-- detail/async_read.hpp beside the blocking read.
use boost_windows_tls.Common.{
  ℕ, zero, suc, ◌≡◌, arith, Bool, true, false, none, some, List, [], length, Option-cases, inl, inr,
}
use boost_windows_tls.ErrorCode.{failed, no_error}
use boost_windows_tls.Asio.{Asio}
use boost_windows_tls.Schannel.{Handle, Schannel}
use boost_windows_tls.NextLayer.{NextLayer}
use boost_windows_tls.Decrypt.{
  SspiDecrypt, DecryptState, Stepped, data_needed, data_available, error, decrypt,
}
use boost_windows_tls.Decrypt
use boost_windows_tls.Stream.{
  ReadSome, Run, finished, aborted, receive, handle_decrypted, read_some,
}
use boost_windows_tls.Async.Read.{
  AsyncRead, after_read, answer, loop, reenter, resume, perform, run, async_read, new_read,
}

-- A read that does not fail clears the error code, and one that fails brings no bytes.
pub record ReportsCleanly {World : Type 0} (layer : NextLayer World) : Type 0 where
  pub success_clears :
      (n : ℕ) (w : World)
      → failed (layer.read_some n w).error ≡ false
      → (layer.read_some n w).error ≡ no_error
  pub failure_is_empty :
      (n : ℕ) (w : World)
      → failed (layer.read_some n w).error ≡ true
      → (layer.read_some n w).bytes ≡ []

module _ {World : Type 0} (sspi : Schannel World) (net : Asio) (debug : Bool) (ctxt : Handle)
    (sizes : List ℕ) (layer : NextLayer World) (clean : ReportsCleanly layer) where
  -- The turn from the head of the loop on, with the turns that follow.
  run_loop : ℕ → AsyncRead → ℕ → SspiDecrypt → World → Run (ReadSome World)
  run_loop fuel a size d w = elim (loop sspi net debug ctxt sizes a no_error size d w) [
    | none ↦ aborted
    | some t ↦ perform layer (run sspi net debug ctxt sizes layer fuel) t
  ]

  abbrev blocking : ℕ → SspiDecrypt → World → Run (ReadSome World)
  blocking fuel d w = read_some sspi net layer debug fuel ctxt sizes no_error d w

  turns_same :
      (fuel size : ℕ) (a : AsyncRead) (s : Stepped World) (r : ReadSome World)
      → ((a' : AsyncRead) (size' : ℕ) (d' : SspiDecrypt) (w' : World)
          → blocking fuel d' w' ≡ finished r
          → run_loop fuel a' size' d' w' ≡ finished r)
      → handle_decrypted sspi net layer debug
          (read_some sspi net layer debug fuel ctxt sizes)
          no_error
          s
        ≡ finished r
      → perform layer (run sspi net debug ctxt sizes layer (suc fuel)) (answer a no_error size s)
        ≡ finished r
  unfolding answer perform run resume reenter handle_decrypted run_loop
  turns_same fuel size a s r ih h =
      let n = layer.read_some s.decrypt.input_buffer.size s.world in
      let size' = length n.bytes in
      ground (
        arith,
        clean.success_clears s.decrypt.input_buffer.size s.world,
        clean.failure_is_empty s.decrypt.input_buffer.size s.world,
        ih (record { entry_count = suc a.entry_count; point = after_read }) size'
            (Decrypt.size_read net size' (receive n.bytes s.decrypt)) n.world,
      )

  run_loop_same :
      (fuel size : ℕ) (a : AsyncRead) (d : SspiDecrypt) (w : World) (r : ReadSome World)
      → blocking fuel d w ≡ finished r
      → run_loop fuel a size d w ≡ finished r
  unfolding run_loop loop read_some
  run_loop_same zero size a d w r h = ground arith
  run_loop_same (suc fuel) size a d w r h =
      elim (Option-cases (decrypt sspi net debug ctxt sizes d w)) [
        | inl stopped ↦ ground (arith, stopped)
        | inr (s, stepped) ↦
            rw (stepped, run_loop)
              (turns_same fuel size a s r
                (λ a' size' d' w' h'. run_loop_same fuel size' a' d' w' r h')
                (ground (arith, stepped)))
      ]

  -- Whatever the blocking read returns, the handler of the asynchronous read gets, if the next
  -- layer clears the error code when it does not fail and brings no bytes when it does: the error,
  -- the count, the bytes, and the state. It takes at most one more call of the coroutine than the
  -- blocking read was given iterations.
  pub async_read_same :
      (fuel : ℕ) (d : SspiDecrypt) (w : World) (r : ReadSome World)
      → read_some sspi net layer debug fuel ctxt sizes no_error d w ≡ finished r
      → async_read sspi net debug ctxt sizes layer (suc fuel) d w ≡ finished r
  unfolding async_read run resume reenter run_loop
  async_read_same fuel d w r h =
      let same = run_loop_same fuel 0 (record new_read { entry_count = 1 }) d w r h in same

  -- The other way round: what follows one turn of the coroutine follows one iteration of the loop.
  turns_sound :
      (fuel size : ℕ) (a : AsyncRead) (s : Stepped World) (r : ReadSome World)
      → ((a' : AsyncRead) (size' : ℕ) (d' : SspiDecrypt) (w' : World)
          → run_loop fuel a' size' d' w' ≡ finished r
          → blocking (suc fuel) d' w' ≡ finished r)
      → perform layer (run sspi net debug ctxt sizes layer (suc fuel)) (answer a no_error size s)
        ≡ finished r
      → handle_decrypted sspi net layer debug
          (read_some sspi net layer debug (suc fuel) ctxt sizes)
          no_error
          s
        ≡ finished r
  unfolding answer perform run resume reenter handle_decrypted run_loop
  turns_sound fuel size a s r ih h =
      let n = layer.read_some s.decrypt.input_buffer.size s.world in
      let size' = length n.bytes in
      ground (
        arith,
        clean.success_clears s.decrypt.input_buffer.size s.world,
        clean.failure_is_empty s.decrypt.input_buffer.size s.world,
        ih (record { entry_count = suc a.entry_count; point = after_read }) size'
            (Decrypt.size_read net size' (receive n.bytes s.decrypt)) n.world,
      )

  last_turn :
      (size : ℕ) (a : AsyncRead) (s : Stepped World) (r : ReadSome World)
      → perform layer (run sspi net debug ctxt sizes layer zero) (answer a no_error size s)
        ≡ finished r
      → handle_decrypted sspi net layer debug
          (read_some sspi net layer debug zero ctxt sizes)
          no_error
          s
        ≡ finished r
  unfolding answer perform run handle_decrypted
  last_turn size a s r h = ground arith

  run_loop_sound :
      (fuel size : ℕ) (a : AsyncRead) (d : SspiDecrypt) (w : World) (r : ReadSome World)
      → run_loop fuel a size d w ≡ finished r
      → blocking (suc fuel) d w ≡ finished r
  unfolding run_loop loop read_some
  run_loop_sound zero size a d w r h = elim (Option-cases (decrypt sspi net debug ctxt sizes d w)) [
    | inl stopped ↦ ground (arith, stopped)
    | inr (s, stepped) ↦ ground (arith, stepped, last_turn size a s r (ground (arith, stepped)))
  ]
  run_loop_sound (suc fuel) size a d w r h =
      elim (Option-cases (decrypt sspi net debug ctxt sizes d w)) [
        | inl stopped ↦ ground (arith, stopped)
        | inr (s, stepped) ↦
            let turned =
              turns_sound fuel size a s r
                (λ a' size' d' w' h'. run_loop_sound fuel size' a' d' w' r h')
                (ground (arith, stepped)) in
            ground (arith, stepped, turned)
      ]

  -- What the handler gets, a blocking read returns that is given as many iterations.
  pub async_read_sound :
      (fuel : ℕ) (d : SspiDecrypt) (w : World) (r : ReadSome World)
      → async_read sspi net debug ctxt sizes layer fuel d w ≡ finished r
      → read_some sspi net layer debug fuel ctxt sizes no_error d w ≡ finished r
  unfolding async_read run resume reenter run_loop
  async_read_sound zero d w r h = absurd (ground arith)
  async_read_sound (suc fuel) d w r h =
      let same = run_loop_sound fuel 0 (record new_read { entry_count = 1 }) d w r h in same
