-- ===== src/Examples/EchoClient/Replying.antt =====
-- examples/echo_client.cpp: what the client prints.
use boost_windows_tls.Common.{
  ℕ, zero, suc, ◌-◌, ◌≤◌, ◌<◌, ◌≡◌, ◌⊎◌, refl, ◌∙◌, ap, arith, min, false, List, [], ◌∷◌, Bytes,
  Array, length, take, slice, store, length-slice, length-take, Bool-cases, inl, inr,
}
use boost_windows_tls.ErrorCode.{ErrorCode, failed}
use boost_windows_tls.Context.{Context}
use boost_windows_tls.Handshake.{client}
use boost_windows_tls.Stream.{finished}
use boost_windows_tls.Connection.{
  Platform, TlsStream, Completion, run_map_ends, run_then_ends, async_handshake, async_shutdown,
}
use boost_windows_tls.Examples.EchoClient.{
  max_length, getline, strlen, Phase, connecting, handshaking, writing, reading, closing, over,
  Client, Net, new_client, send_request, receive_response, on_connect, on_handshake, on_write,
  on_read, on_shutdown, complete, completions,
}

-- `async_write` and `async_read` end with success only when the whole buffer was written or filled.
pub record TransfersAll {World : Type 0} (net : Net World) : Type 0 where
  pub writes_all :
      (fuel : ℕ) (bs : Bytes) (t : TlsStream World) (c : Completion World)
      → net.async_write fuel bs t ≡ finished c
      → failed c.error ≡ false
      → c.count ≡ length bs
  pub reads_all :
      (fuel n : ℕ) (t : TlsStream World) (c : Completion World)
      → net.async_read fuel n t ≡ finished c
      → failed c.error ≡ false
      → c.count ≡ n

-- How many bytes of the line are sent: those before its end, its first NUL, and the end of the array.
abbrev pub asked : Bytes → ℕ
asked typed = strlen (getline max_length typed)

getline_fits : (n : ℕ) (typed : Bytes) → length (getline n typed) ≤ n - 1
getline_fits zero typed = omega arith
getline_fits (suc zero) typed = omega arith
getline_fits (suc (suc n)) [] = omega arith
getline_fits (suc (suc n)) (c ∷ cs) = ground (arith, getline_fits (suc n) cs)

strlen_within : (bs : Bytes) → strlen bs ≤ length bs
strlen_within [] = omega arith
strlen_within (c ∷ cs) = ground (arith, strlen_within cs)

pub asked_fits : (typed : Bytes) → asked typed < max_length
asked_fits typed =
    omega (arith, getline_fits max_length typed, strlen_within (getline max_length typed))

-- What a client in a phase has printed, and what it sends or waits for.
abbrev pub Sound : {World : Type 0} → Bytes → Client World → Phase → Type 0
Sound typed s connecting = s.printed ≡ []
Sound typed s handshaking = s.printed ≡ []
Sound typed s (writing bs) = (s.printed ≡ []) × (length bs ≡ asked typed)
Sound typed s (reading n) = (s.printed ≡ []) × (n ≡ asked typed)
Sound typed s closing = (reply : Bytes) × (s.printed ≡ reply ∷ []) × (length reply ≡ asked typed)
Sound typed s over =
    (s.printed ≡ []) ⊎ ((reply : Bytes) × (s.printed ≡ reply ∷ []) × (length reply ≡ asked typed))

module _ {World : Type 0} where
  connected-Sound :
      (typed : Bytes) (ec : ErrorCode) (s : Client World)
      → s.printed ≡ []
      → Sound typed (on_connect ec s) (on_connect ec s).phase
  unfolding on_connect
  connected-Sound typed ec s h = elim (Bool-cases (failed ec)) [
    | inl bad ↦ rw bad (inl h)
    | inr good ↦ rw good h
  ]

  handshaken-Sound :
      (typed : Bytes) (ec : ErrorCode) (s : Client World)
      → s.printed ≡ []
      → Sound typed (on_handshake typed ec s) (on_handshake typed ec s).phase
  unfolding on_handshake send_request
  handshaken-Sound typed ec s h =
      let line = getline max_length typed in
      let sized : length (take (min (strlen line) max_length) line) ≡ strlen line =
        length-take (min (strlen line) max_length) line
        ∙ omega (arith, strlen_within line, getline_fits max_length typed) in
      elim (Bool-cases (failed ec)) [ inl bad ↦ rw bad (inl h) | inr good ↦ rw good (h, sized) ]

  written-Sound :
      (typed : Bytes) (ec : ErrorCode) (count : ℕ) (s : Client World)
      → s.printed ≡ []
      → (failed ec ≡ false → count ≡ asked typed)
      → Sound typed (on_write ec count s) (on_write ec count s).phase
  unfolding on_write receive_response
  written-Sound typed ec count s h all = elim (Bool-cases (failed ec)) [
    | inl bad ↦ rw bad (inl h)
    | inr good ↦ rw good (h, omega (arith, all good, asked_fits typed))
  ]

  read-Sound :
      (typed : Bytes) (ec : ErrorCode) (count : ℕ) (s : Client World)
      → s.printed ≡ []
      → (failed ec ≡ false → count ≡ asked typed)
      → Sound typed (on_read ec count s) (on_read ec count s).phase
  unfolding on_read
  read-Sound typed ec count s h all = elim (Bool-cases (failed ec)) [
    | inl bad ↦ rw bad (inl h)
    | inr good ↦ rw good (
      slice s.reply_ 0 count,
      ap (slice s.reply_ 0 count ∷◌) h,
      length-slice s.reply_ 0 count ∙ all good,
    )
  ]

  shut-Sound :
      (typed : Bytes) (ec : ErrorCode) (s : Client World)
      → Sound typed s closing
      → Sound typed (on_shutdown ec s) (on_shutdown ec s).phase
  unfolding on_shutdown
  shut-Sound typed ec s h = elim (Bool-cases (failed ec)) [
    | inl bad ↦ rw bad (inr h)
    | inr good ↦ rw good (inr h)
  ]

module _ {World : Type 0} (p : Platform World) (net : Net World) (all : TransfersAll net)
    (ctx : Context) where
  complete-Sound :
      (fuel : ℕ) (s s' : Client World) (phase : Phase)
      → s.phase ≡ phase
      → Sound net.typed s phase
      → complete p net ctx fuel s ≡ finished s'
      → Sound net.typed s' s'.phase
  unfolding complete
  complete-Sound fuel s s' connecting at h e =
      let (ec, w) = net.async_connect s.stream.world in
      let t : Client World = record s { stream = record s.stream { world = w } } in
      let same : s' ≡ on_connect ec t = ground (arith, at) in
      rw same (connected-Sound net.typed ec t h)
  complete-Sound fuel s s' handshaking at h e =
      let (c, ends, same) =
        run_map_ends
          (λ (c : Completion World).
            on_handshake net.typed c.error (record s { stream = c.stream }))
          (async_handshake p ctx fuel client s.stream) s' (ground (arith, at)) in
      rw same (handshaken-Sound net.typed c.error (record s { stream = c.stream }) h)
  complete-Sound fuel s s' (writing bs) at h e =
      let (c, ends, same) =
        run_map_ends
          (λ (c : Completion World). on_write c.error c.count (record s { stream = c.stream }))
          (net.async_write fuel bs s.stream) s' (ground (arith, at)) in
      rw same (
        written-Sound net.typed c.error c.count (record s { stream = c.stream }) h.0
          (λ fine. all.writes_all fuel bs s.stream c ends fine ∙ h.1))
  complete-Sound fuel s s' (reading n) at h e =
      let (c, ends, same) =
        run_map_ends
          (λ (c : Completion World).
            on_read c.error c.count
              (record s { stream = c.stream; reply_ = store s.reply_ 0 c.delivered }))
          (net.async_read fuel n s.stream) s' (ground (arith, at)) in
      rw same (
        read-Sound net.typed c.error c.count
          (record s { stream = c.stream; reply_ = store s.reply_ 0 c.delivered }) h.0
          (λ fine. all.reads_all fuel n s.stream c ends fine ∙ h.1))
  complete-Sound fuel s s' closing at h e =
      let (c, ends, same) =
        run_map_ends
          (λ (c : Completion World). on_shutdown c.error (record s { stream = c.stream }))
          (async_shutdown p fuel s.stream) s' (ground (arith, at)) in
      rw same (shut-Sound net.typed c.error (record s { stream = c.stream }) h)
  complete-Sound fuel s s' over at h e = let same : s' ≡ s = ground (arith, at) in rw (same, at) h

  completions-Sound :
      (n fuel : ℕ) (s s' : Client World)
      → Sound net.typed s s.phase
      → completions p net ctx n fuel s ≡ finished s'
      → Sound net.typed s' s'.phase
  unfolding completions
  completions-Sound zero fuel s s' h e = let same : s' ≡ s = ground arith in rw same h
  completions-Sound (suc n) fuel s s' h e =
      let (s₁, first, others) =
        run_then_ends (complete p net ctx fuel s) (completions p net ctx n fuel) s' e in
      completions-Sound n fuel s₁ s' (complete-Sound fuel s s₁ s.phase refl h first) others

  one_reply :
      (s : Client World) (reply : Bytes) (others : List Bytes) (phase : Phase)
      → Sound net.typed s phase
      → s.printed ≡ reply ∷ others
      → (others ≡ []) × (length reply ≡ asked net.typed)
  one_reply s reply others connecting h e = absurd (ground (arith, h))
  one_reply s reply others handshaking h e = absurd (ground (arith, h))
  one_reply s reply others (writing bs) h e = absurd (ground (arith, h))
  one_reply s reply others (reading n) h e = absurd (ground (arith, h))
  one_reply s reply others closing (r, p', l) e = ground (arith, p', l)
  one_reply s reply others over (inl h) e = absurd (ground (arith, h))
  one_reply s reply others over (inr (r, p', l)) e = ground (arith, p', l)

  -- After any number of completions the echo client has printed at most one reply, which has as
  -- many bytes as the line that was typed has up to its end, its first NUL and the end of the
  -- array, less than 1024. Writing is to end with success only when the whole buffer was written,
  -- and reading only when it was filled.
  pub reply_fits :
      (n fuel : ℕ) (t : TlsStream World) (a : Array) (s' : Client World) (reply : Bytes)
      (others : List Bytes)
      → completions p net ctx n fuel (new_client t a) ≡ finished s'
      → s'.printed ≡ reply ∷ others
      → (others ≡ []) × (length reply ≡ asked net.typed) × (length reply < max_length)
  unfolding new_client
  reply_fits n fuel t a s' reply others e printed =
      let sound = completions-Sound n fuel (new_client t a) s' refl e in
      let (one, sized) = one_reply s' reply others s'.phase sound printed in
      (one, sized, omega (arith, sized, asked_fits net.typed))
