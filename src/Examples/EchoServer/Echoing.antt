-- ===== src/Examples/EchoServer/Echoing.antt =====
-- examples/echo_server.cpp: what a session writes is what it has read.
use boost_windows_tls.Common.{
  ◌⊎◌, ◌≢◌, ◌++◌, ◌∙◌, sym, ap, append_assoc, append-nil, ℕ, ◌≡◌, refl, arith, min, Bool-cases, inl,
  inr, Bytes, List, [], ◌∷◌, Array, store, slice, slice-store, length,
}
use boost_windows_tls.ErrorCode.{no_error, failed}
use boost_windows_tls.Asio.{IsDocumented}
use boost_windows_tls.Context.{Context}
use boost_windows_tls.Stream.{finished}
use boost_windows_tls.Stream.Counting.{AlwaysHasData, Counts, read_some_counts}
use boost_windows_tls.Async.ReadLaws.{ReportsCleanly, async_read_sound}
use boost_windows_tls.Async.Read.{async_read}
use boost_windows_tls.Handshake.{server}
use boost_windows_tls.Connection.{
  AsyncWrite, Platform, TlsStream, Completion, run_map_ends, after_read, async_read_some,
  async_handshake,
}
use boost_windows_tls.Examples.EchoServer.{
  handshaken, has_read, has_written, Session, Phase, handshaking, reading, writing, over, Turn,
  Serves, waits, completes, complete, pending, on_handshake, on_read, on_write, data_size,
}

pub phase_cases : (ph : Phase) → (ph ≡ over) ⊎ (ph ≢ over)
phase_cases over = inl refl
phase_cases handshaking = inr (λ e. cc)
phase_cases reading = inr (λ e. cc)
phase_cases (writing bs) = inr (λ e. cc)

-- What was yet to be written and what came in is what went out and what is now yet to be written; a
-- session that is over may have dropped some.
abbrev pub Echoes : {World : Type 0} → Session World → Bytes → Bytes → Session World → Type 0
Echoes s ins outs s' =
    (rest : Bytes) × (pending s.phase ++ ins ≡ outs ++ rest)
    × (s'.phase ≢ over → rest ≡ pending s'.phase)

module _ {World : Type 0} (p : Platform World) (laws : IsDocumented p.asio)
    (has : AlwaysHasData p.sspi) (clean : ReportsCleanly p.layer) (ctx : Context)
    (async_write : AsyncWrite World) where
  async_read_counts :
      (fuel : ℕ) (t : TlsStream World) (sizes : List ℕ) (c : Completion World)
      → async_read_some p fuel sizes t ≡ finished c
      → Counts sizes c.count c.delivered
  unfolding async_read_some
  async_read_counts fuel t sizes c e =
      let st = t.sspi_stream in
      let (r, ends, same) =
        run_map_ends (after_read t)
          (async_read p.sspi p.asio p.debug st.ctxt_handle sizes p.layer fuel st.decrypt t.world) c
          e in
      rw same (
        read_some_counts p.asio laws p.debug p.sspi has p.layer fuel st.ctxt_handle sizes no_error
          st.decrypt t.world r
          (async_read_sound p.sspi p.asio p.debug st.ctxt_handle sizes p.layer clean fuel st.decrypt
            t.world r ends))

  -- The bytes of `buffer(data_, length)` behind a read.
  read_back :
      (a : Array) (count : ℕ) (bs : Bytes)
      → Counts (data_size ∷ []) count bs
      → slice (store a 0 bs) 0 (min count data_size) ≡ bs
  read_back a count bs (counted, fits) =
      let same : min count data_size ≡ length bs = omega (arith, counted, fits) in
      rw same (slice-store a 0 bs)

  handshaken-Echoes :
      (s : Session World) (c : Completion World)
      → s.phase ≡ handshaking
      → Echoes s (handshaken s c).bytes_in (handshaken s c).bytes_out (handshaken s c).session
  unfolding on_handshake
  handshaken-Echoes s c at = elim (Bool-cases (failed c.error)) [
    | inl bad ↦ ([], rw at refl, λ on. absurd (on (rw bad refl)))
    | inr good ↦ ([], rw at refl, λ on. rw good refl)
  ]

  has_read-Echoes :
      (s : Session World) (c : Completion World)
      → s.phase ≡ reading
      → Counts (data_size ∷ []) c.count c.delivered
      → Echoes s (has_read s c).bytes_in (has_read s c).bytes_out (has_read s c).session
  unfolding on_read
  has_read-Echoes s c at counted = elim (Bool-cases (failed c.error)) [
    | inl bad ↦ ([], rw (at, bad) refl, λ on. absurd (on (ground (arith, bad))))
    | inr good ↦ (
      c.delivered,
      rw (at, good) refl,
      λ on. rw good (sym (read_back s.data_ c.count c.delivered counted)),
    )
  ]

  has_written-Echoes :
      (s : Session World) (bs : Bytes) (c : Completion World)
      → s.phase ≡ writing bs
      → Echoes s
          (has_written s bs c).bytes_in
          (has_written s bs c).bytes_out
          (has_written s bs c).session
  unfolding on_write
  has_written-Echoes s bs c at = elim (Bool-cases (failed c.error)) [
    | inl bad ↦ (bs, rw (at, bad) (append-nil bs), λ on. absurd (on (rw bad refl)))
    | inr good ↦ ([], rw (at, good) refl, λ on. rw good refl)
  ]

  pub completed_over :
      (fuel : ℕ) (s : Session World) (t : Turn World)
      → s.phase ≡ over
      → complete p ctx async_write fuel s ≡ finished t
      → t ≡ record { bytes_in = []; bytes_out = []; session = s }
  unfolding complete
  completed_over fuel s t at e = ground (arith, at)

  complete-Echoes :
      (fuel : ℕ) (s : Session World) (t : Turn World) (ph : Phase)
      → s.phase ≡ ph
      → complete p ctx async_write fuel s ≡ finished t
      → Echoes s t.bytes_in t.bytes_out t.session
  unfolding complete
  complete-Echoes fuel s t handshaking at e =
      let (c, ends, same) =
        run_map_ends (handshaken s) (async_handshake p ctx fuel server s.stream) t
          (ground (arith, at)) in
      rw same (handshaken-Echoes s c at)
  complete-Echoes fuel s t reading at e =
      let (c, ends, same) =
        run_map_ends (has_read s) (async_read_some p fuel (data_size ∷ []) s.stream) t
          (ground (arith, at)) in
      rw same (has_read-Echoes s c at (async_read_counts fuel s.stream (data_size ∷ []) c ends))
  complete-Echoes fuel s t (writing bs) at e =
      let (c, ends, same) =
        run_map_ends (has_written s bs) (async_write fuel bs s.stream) t (ground (arith, at)) in
      rw same (has_written-Echoes s bs c at)
  complete-Echoes fuel s t over at e =
      let same = completed_over fuel s t at e in rw (same, at) ([], refl, λ on. refl)

  -- Nothing comes in or goes out once a session is over.
  pub over_stays :
      (s s' : Session World) (ins outs : Bytes)
      → s.phase ≡ over
      → Serves p ctx async_write s ins outs s'
      → (ins ≡ []) × (outs ≡ []) × (s' ≡ s)
  over_stays s s' ins outs at (waits i o e) = (i, o, e)
  over_stays s s' ins outs at (completes {ins' = ins'} {outs' = outs'} fuel t e more i o) =
      let same : t ≡ record { bytes_in = []; bytes_out = []; session = s } =
        completed_over fuel s t at e in
      let (i', o', e') = over_stays t.session s' ins' outs' (rw same at) more in
      (i ∙ rw same i', o ∙ rw same o', e' ∙ ap (λ (u : Turn World). u.session) same)

  -- Whatever completes in whatever order, a session of the echo server writes what it has read:
  -- what it had yet to write and what came in since is what went out and a rest, which is what it
  -- has yet to write unless it is over. In particular, while it waits for the next bytes, it has
  -- written all that it has read. The package is to give a data buffer for every record, and the
  -- next layer to clear the error code when it does not fail and to bring no bytes when it does.
  pub Serves-Echoes :
      (s s' : Session World) (ins outs : Bytes)
      → Serves p ctx async_write s ins outs s'
      → Echoes s ins outs s'
  Serves-Echoes s s' ins outs (waits i o e) =
      rw (i, o, e) (pending s.phase, append-nil (pending s.phase), λ on. refl)
  Serves-Echoes s s' ins outs (completes {ins' = ins'} {outs' = outs'} fuel t e more i o) =
      let (rest, split, kept) = complete-Echoes fuel s t s.phase refl e in
      elim (phase_cases t.session.phase) [
        | inl ended ↦
            let (i', o', e') = over_stays t.session s' ins' outs' ended more in
            (
              rest,
              rw (i, o, i', o', append-nil t.bytes_in, append-nil t.bytes_out) split,
              λ on. absurd (on (rw e' ended)),
            )
        | inr on ↦
            let (rest', split', kept') = Serves-Echoes t.session s' ins' outs' more in
            (
              rest',
              ap (pending s.phase ++◌) i
                  ∙ sym (append_assoc (pending s.phase) t.bytes_in ins')
                  ∙ ap (◌++ ins') split
                  ∙ append_assoc t.bytes_out rest ins'
                  ∙ ap (t.bytes_out ++◌) (ap (◌++ ins') (kept on) ∙ split')
                  ∙ sym (append_assoc t.bytes_out outs' rest')
                  ∙ ap (◌++ rest') (sym o),
              kept',
            )
      ]
