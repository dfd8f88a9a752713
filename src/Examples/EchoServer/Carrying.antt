-- ===== src/Examples/EchoServer/Carrying.antt =====
-- examples/echo_server.cpp: what a session that goes on has read from its stream and put on it.
use boost_windows_tls.Common.{
  ℕ, ◌≡◌, ◌≢◌, refl, arith, Option, [], ◌∷◌, Bytes, Bool-cases, inl, inr,
}
use boost_windows_tls.ErrorCode.{failed}
use boost_windows_tls.Asio.{IsDocumented}
use boost_windows_tls.NextLayer.{IsStream}
use boost_windows_tls.Context.{Context}
use boost_windows_tls.Decrypt.Deliver.{DecryptsInPlace, IsValid}
use boost_windows_tls.Encrypt.Layout.{IsSized, ReportsSizes}
use boost_windows_tls.Stream.{finished}
use boost_windows_tls.Stream.Plaintext.{Protocol, Ahead, Conserves}
use boost_windows_tls.Stream.Peers.{Seals}
use boost_windows_tls.Connection.Duplex.{
  Duplex, Composed, Reaches, Reaches-nothing, Reaches-further, Written-Reaches, Conserves-further,
  read_carries,
}
use boost_windows_tls.Connection.{
  AsyncWrite, Platform, TlsStream, Completion, async_read_some, run_map_ends,
}
use boost_windows_tls.Stream.Counting.{AlwaysHasData}
use boost_windows_tls.Examples.EchoServer.Echoing.{phase_cases, over_stays}
use boost_windows_tls.Async.ReadLaws.{ReportsCleanly}
use boost_windows_tls.Examples.EchoServer.{
  Session, Phase, reading, writing, handshaking, over, Turn, has_read, has_written, on_read,
  on_write, data_size, complete, Serves, waits, completes,
}

module _ {World Keys : Type 0} (p : Platform World) (laws : IsDocumented p.asio)
    (reports : ReportsSizes p.sspi) (protocol : Protocol p.sspi p.layer)
    (reopen : Keys → Bytes → Option (Bytes × Bytes × Keys)) (peer : Seals p.sspi p.layer reopen)
    (duplex : Duplex protocol peer) (in_place : DecryptsInPlace p.sspi) (stream : IsStream p.layer)
    (clean : ReportsCleanly p.layer) (ctx : Context) (async_write : AsyncWrite World)
    (composed : Composed p async_write) where
  -- What a session that goes on has done to its stream.
  abbrev pub Carries : TlsStream World → Bytes → Bytes → Bytes → TlsStream World → Type 0
  Carries t plain ins outs t' =
      Conserves protocol t.sspi_stream.decrypt plain ins t'.sspi_stream.decrypt t'.world
      × Reaches p laws reports protocol reopen peer duplex t.world outs t'.world
      × IsSized t'.sspi_stream.encrypt

  has_read-Carries :
      (fuel : ℕ) (s : Session World) (c : Completion World) (plain : Bytes)
      → IsValid s.stream.sspi_stream.decrypt
      → IsSized s.stream.sspi_stream.encrypt
      → Ahead protocol s.stream.sspi_stream.decrypt s.stream.world plain
      → async_read_some p fuel (data_size ∷ []) s.stream ≡ finished c
      → (has_read s c).session.phase ≢ over
      → ((has_read s c).session.phase ≢ handshaking)
        × Carries s.stream plain
            (has_read s c).bytes_in
            (has_read s c).bytes_out
            (has_read s c).session.stream
  unfolding on_read
  has_read-Carries fuel s c plain v z ahead e on = elim (Bool-cases (failed c.error)) [
    | inl bad ↦ absurd (on (ground (arith, bad)))
    | inr good ↦
        let (conserved, reached, same) =
          read_carries p laws reports protocol reopen peer duplex in_place stream clean fuel
            (data_size ∷ []) s.stream c plain v ahead e good in
        rw good ((λ shaking. cc), (conserved, reached, rw same z))
  ]

  has_written-Carries :
      (fuel : ℕ) (s : Session World) (bs : Bytes) (c : Completion World) (plain : Bytes)
      → IsValid s.stream.sspi_stream.decrypt
      → IsSized s.stream.sspi_stream.encrypt
      → Ahead protocol s.stream.sspi_stream.decrypt s.stream.world plain
      → async_write fuel bs s.stream ≡ finished c
      → (has_written s bs c).session.phase ≢ over
      → ((has_written s bs c).session.phase ≢ handshaking)
        × Carries s.stream plain
            (has_written s bs c).bytes_in
            (has_written s bs c).bytes_out
            (has_written s bs c).session.stream
  unfolding on_write
  has_written-Carries fuel s bs c plain v z ahead e on = elim (Bool-cases (failed c.error)) [
    | inl bad ↦ absurd (on (rw bad refl))
    | inr good ↦
        let (reached, (keys, incoming), sized, same) =
          Written-Reaches p laws reports protocol reopen peer duplex s.stream c.stream bs z
            (composed fuel bs s.stream c e good) in
        rw good
          ((λ shaking. cc), (rw same (plain, rw (keys, incoming) ahead, refl, v), reached, sized))
  ]

  complete-Carries :
      (fuel : ℕ) (s : Session World) (t : Turn World) (ph : Phase) (plain : Bytes)
      → s.phase ≡ ph
      → ph ≢ handshaking
      → IsValid s.stream.sspi_stream.decrypt
      → IsSized s.stream.sspi_stream.encrypt
      → Ahead protocol s.stream.sspi_stream.decrypt s.stream.world plain
      → complete p ctx async_write fuel s ≡ finished t
      → t.session.phase ≢ over
      → (t.session.phase ≢ handshaking)
        × Carries s.stream plain t.bytes_in t.bytes_out t.session.stream
  unfolding complete
  complete-Carries fuel s t handshaking plain at ready v z ahead e on = absurd (ready refl)
  complete-Carries fuel s t over plain at ready v z ahead e on = absurd (on (ground (arith, at)))
  complete-Carries fuel s t reading plain at ready v z ahead e on =
      let (c, ends, same) =
        run_map_ends (has_read s) (async_read_some p fuel (data_size ∷ []) s.stream) t
          (ground (arith, at)) in
      rw same (has_read-Carries fuel s c plain v z ahead ends (rw same at on))
  complete-Carries fuel s t (writing bs) plain at ready v z ahead e on =
      let (c, ends, same) =
        run_map_ends (has_written s bs) (async_write fuel bs s.stream) t (ground (arith, at)) in
      rw same (has_written-Carries fuel s bs c plain v z ahead ends (rw same at on))

  pub Serves-Carries :
      (has : AlwaysHasData p.sspi) (s s' : Session World) (plain ins outs : Bytes)
      → s.phase ≢ handshaking
      → s'.phase ≢ over
      → IsValid s.stream.sspi_stream.decrypt
      → IsSized s.stream.sspi_stream.encrypt
      → Ahead protocol s.stream.sspi_stream.decrypt s.stream.world plain
      → Serves p ctx async_write s ins outs s'
      → Carries s.stream plain ins outs s'.stream
  Serves-Carries has s s' plain ins outs ready on v z ahead (waits i o e) =
      rw (i, o, e)
        (
          (plain, ahead, refl, v),
          Reaches-nothing p laws reports protocol reopen peer duplex s.stream.world s.stream.world
              refl refl,
          z,
        )
  Serves-Carries has s s' plain ins outs ready on v z ahead
        (completes {ins' = ins'} {outs' = outs'} fuel t e more i o) =
      elim (phase_cases t.session.phase) [
        | inl ended ↦
            let (none_in, none_out, same) =
              over_stays p laws has clean ctx async_write t.session s' ins' outs' ended more in
            absurd (on (rw same ended))
        | inr going ↦
            let (ready', (conserved, reached, sized)) =
              complete-Carries fuel s t s.phase plain refl ready v z ahead e going in
            let later =
              λ (plain' : Bytes) (v' : IsValid t.session.stream.sspi_stream.decrypt)
                  (ahead' : Ahead protocol t.session.stream.sspi_stream.decrypt
                    t.session.stream.world plain').
                Serves-Carries has t.session s' plain' ins' outs' ready' on v' sized ahead' more in
            let (plain₁, ahead₁, split₁, v₁) = conserved in
            let (conserved', reached', sized') = later plain₁ v₁ ahead₁ in
            (
              rw i (
                  Conserves-further p laws reports protocol reopen peer duplex
                    s.stream.sspi_stream.decrypt t.session.stream.sspi_stream.decrypt
                    s'.stream.sspi_stream.decrypt t.session.stream.world s'.stream.world plain
                    t.bytes_in ins' conserved (λ plain' v' ahead'. (later plain' v' ahead').0)),
              rw o (
                  Reaches-further p laws reports protocol reopen peer duplex s.stream.world
                    t.session.stream.world s'.stream.world t.bytes_out outs' reached reached'),
              sized',
            )
      ]
