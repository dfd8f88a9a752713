-- ===== src/Examples/AsyncHttpsClient/Order.antt =====
-- examples/async_https_client.cpp: in which order the session goes through its operations, and how it
-- ends.
use boost_windows_tls.Common.{
  ℕ, zero, suc, ◌-◌, ◌≤◌, ◌≡◌, ◌⊎◌, refl, arith, some, List, [], ◌∷◌, Bytes, inl, inr, Bool-cases,
  if◌then◌else◌,
}
use boost_windows_tls.ErrorCode.{ErrorCode, failed, no_error}
use boost_windows_tls.Stream.{finished}
use boost_windows_tls.Connection.{
  Platform, TlsStream, Completion, run_map_ends, run_then_ends, async_handshake, async_shutdown,
}
use boost_windows_tls.Handshake.{client}
use boost_windows_tls.Examples.Url.{Target}
use boost_windows_tls.Examples.HttpsClient.{client_context}
use boost_windows_tls.Examples.AsyncHttpsClient.{
  AsyncWeb, Phase, resolving, connecting, handshaking, writing, reading, closing, over, What,
  Session, on_resolve, on_connect, on_handshake, on_write, on_read, on_shutdown, run, complete,
  completions, same_code,
}

-- How many completions are left at most.
abbrev pub rank : Phase → ℕ
rank resolving = 6
rank (connecting results) = 5
rank handshaking = 4
rank writing = 3
rank reading = 2
rank closing = 1
rank over = 0

-- What a session has printed and reported: nothing before the response has come, then the response, and
-- one failure at most in the end.
abbrev pub Told : {World : Type 0} → Session World → Phase → Type 0
Told s over =
    ((s.failures ≡ []) × ((response : Bytes) × (s.printed ≡ response ∷ [])))
    ⊎ ((failure : ErrorCode × What) × (s.failures ≡ failure ∷ []))
Told s closing = (s.failures ≡ []) × ((response : Bytes) × (s.printed ≡ response ∷ []))
Told s resolving = (s.failures ≡ []) × (s.printed ≡ [])
Told s (connecting results) = (s.failures ≡ []) × (s.printed ≡ [])
Told s handshaking = (s.failures ≡ []) × (s.printed ≡ [])
Told s writing = (s.failures ≡ []) × (s.printed ≡ [])
Told s reading = (s.failures ≡ []) × (s.printed ≡ [])

-- What a completion does to a session in a phase.
abbrev Moves : {World : Type 0} → Session World → Phase → Session World → Type 0
Moves s phase s' = Told s phase → Told s' s'.phase × (rank s'.phase ≤ rank phase - 1)

module _ {World : Type 0} (p : Platform World) (web : AsyncWeb World) where
  resolved-Moves :
      (ec : ErrorCode) (results : List ℕ) (s : Session World)
      → Moves s resolving (on_resolve ec results s)
  unfolding on_resolve
  resolved-Moves ec results s told = elim (Bool-cases (failed ec)) [
    | inl bad ↦ rw bad (inr ((ec, What.resolve), ground arith), omega arith)
    | inr good ↦ rw good (told, omega arith)
  ]

  connected-Moves :
      (ec : ErrorCode) (results : List ℕ) (s : Session World)
      → Moves s (connecting results) (on_connect ec s)
  unfolding on_connect
  connected-Moves ec results s told = elim (Bool-cases (failed ec)) [
    | inl bad ↦ rw bad (inr ((ec, What.connect), ground arith), omega arith)
    | inr good ↦ rw good (told, omega arith)
  ]

  handshaken-Moves : (ec : ErrorCode) (s : Session World) → Moves s handshaking (on_handshake ec s)
  unfolding on_handshake
  handshaken-Moves ec s told = elim (Bool-cases (failed ec)) [
    | inl bad ↦ rw bad (inr ((ec, What.handshake), ground arith), omega arith)
    | inr good ↦ rw good (told, omega arith)
  ]

  written-Moves : (ec : ErrorCode) (s : Session World) → Moves s writing (on_write ec s)
  unfolding on_write
  written-Moves ec s told = elim (Bool-cases (failed ec)) [
    | inl bad ↦ rw bad (inr ((ec, What.write), ground arith), omega arith)
    | inr good ↦ rw good (told, omega arith)
  ]

  read-Moves :
      (ec : ErrorCode) (response : Bytes) (s : Session World)
      → Moves s reading (on_read ec response s)
  unfolding on_read
  read-Moves ec response s told = elim (Bool-cases (failed ec)) [
    | inl bad ↦ rw bad (inr ((ec, What.read), ground arith), omega arith)
    | inr good ↦ rw good ((told.0, (response, ground arith)), omega arith)
  ]

  shut-Moves : (ec : ErrorCode) (s : Session World) → Moves s closing (on_shutdown web.eof ec s)
  unfolding on_shutdown
  shut-Moves ec s told =
      let ec' = if same_code ec web.eof then no_error else ec in
      elim (Bool-cases (failed ec')) [
        | inl bad ↦ rw bad (inr ((ec', What.shutdown), ground arith), omega arith)
        | inr good ↦ rw good (inl told, omega arith)
      ]

  complete-Moves :
      (fuel : ℕ) (s s' : Session World) (phase : Phase)
      → s.phase ≡ phase
      → complete p web fuel s ≡ finished s'
      → Moves s phase s'
  unfolding complete
  complete-Moves fuel s s' resolving at e =
      let (ec, results, w) = web.async_resolve s.target.host s.target.port s.stream.world in
      let t : Session World = record s { stream = record s.stream { world = w } } in
      let same : s' ≡ on_resolve ec results t = ground (arith, at) in
      rw same (resolved-Moves ec results t)
  complete-Moves fuel s s' (connecting results) at e =
      let (ec, w) = web.async_connect results s.stream.world in
      let t : Session World = record s { stream = record s.stream { world = w } } in
      let same : s' ≡ on_connect ec t = ground (arith, at) in rw same (connected-Moves ec results t)
  complete-Moves fuel s s' handshaking at e =
      let (c, ends, same) =
        run_map_ends
          (λ (c : Completion World). on_handshake c.error (record s { stream = c.stream }))
          (async_handshake p client_context fuel client s.stream) s' (ground (arith, at)) in
      rw same (handshaken-Moves c.error (record s { stream = c.stream }))
  complete-Moves fuel s s' writing at e =
      let (c, ends, same) =
        run_map_ends (λ (c : Completion World). on_write c.error (record s { stream = c.stream }))
          (web.async_write fuel s.target.host s.target.path s.stream) s' (ground (arith, at)) in
      rw same (written-Moves c.error (record s { stream = c.stream }))
  complete-Moves fuel s s' reading at e =
      let (c, ends, same) =
        run_map_ends
          (λ (c : Completion World). on_read c.error c.delivered (record s { stream = c.stream }))
          (web.async_read fuel s.stream) s' (ground (arith, at)) in
      rw same (read-Moves c.error c.delivered (record s { stream = c.stream }))
  complete-Moves fuel s s' closing at e =
      let (c, ends, same) =
        run_map_ends
          (λ (c : Completion World). on_shutdown web.eof c.error (record s { stream = c.stream }))
          (async_shutdown p fuel s.stream) s' (ground (arith, at)) in
      rw same (shut-Moves c.error (record s { stream = c.stream }))
  complete-Moves fuel s s' over at e =
      let same : s' ≡ s = ground (arith, at) in rw (same, at) (λ told. (told, omega arith))

  run_starts :
      (target : Target) (t : TlsStream World) (s : Session World)
      → run p web target t ≡ some s
      → (s.phase ≡ resolving) × ((s.failures ≡ []) × (s.printed ≡ []))
  unfolding run
  run_starts target t s e = ground arith

  rank_over : (phase : Phase) → rank phase ≡ 0 → phase ≡ over
  rank_over over e = refl
  rank_over resolving e = absurd (omega arith)
  rank_over (connecting results) e = absurd (omega arith)
  rank_over handshaking e = absurd (omega arith)
  rank_over writing e = absurd (omega arith)
  rank_over reading e = absurd (omega arith)
  rank_over closing e = absurd (omega arith)

  completions-Told :
      (n fuel : ℕ) (s s' : Session World)
      → Told s s.phase
      → rank s.phase ≤ n
      → completions p web n fuel s ≡ finished s'
      → (s'.phase ≡ over) × Told s' over
  unfolding completions
  completions-Told zero fuel s s' told left e =
      let ended = rank_over s.phase (omega arith) in
      let same : s' ≡ s = ground arith in rw same (ended, rw ended at told)
  completions-Told (suc n) fuel s s' told left e =
      let (s₁, first, others) =
        run_then_ends (complete p web fuel s) (completions p web n fuel) s' e in
      let (told₁, moved) = complete-Moves fuel s s₁ s.phase refl first told in
      completions-Told n fuel s₁ s' told₁ (omega arith) others

  -- Six completions end a session that has been started: it waits for nothing then, and either it
  -- has printed one response and reported no failure, or it has reported exactly one failure.
  pub run_ends :
      (fuel : ℕ) (target : Target) (t : TlsStream World) (s s' : Session World)
      → run p web target t ≡ some s
      → completions p web 6 fuel s ≡ finished s'
      → (s'.phase ≡ over)
        × (((s'.failures ≡ []) × ((response : Bytes) × (s'.printed ≡ response ∷ [])))
            ⊎ ((failure : ErrorCode × What) × (s'.failures ≡ failure ∷ [])))
  run_ends fuel target t s s' begins e =
      let (begun, told) = run_starts target t s begins in
      completions-Told 6 fuel s s' (rw begun told) (rw begun (omega arith)) e
