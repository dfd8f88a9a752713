-- ===== src/Examples/AsyncHttpsClient.antt =====
-- examples/async_https_client.cpp: one request over an asynchronous stream, as a chain of handlers.
pub mod Order
pub mod Verifying
use boost_windows_tls.Common.{
  ℕ, zero, suc, Bool, true, false, not, ◌==◌, ◌&&◌, if◌then◌else◌, Option, none, some, List, [],
  ◌∷◌, Bytes, Array,
}
use boost_windows_tls.ErrorCode.{ErrorCode, Category, system, foreign, failed, no_error}
use boost_windows_tls.Handshake.{client}
use boost_windows_tls.Stream.{Run, finished, aborted, unfinished}
use boost_windows_tls.Connection.{
  Platform, TlsStream, Completion, run_map, run_then, set_server_hostname, async_handshake,
  async_shutdown,
}
use boost_windows_tls.Examples.Url.{regex_match, Target, target_of}
use boost_windows_tls.Examples.HttpsClient.{client_context, Exit, refusal}

-- `==` on error codes.
abbrev pub same_category : Category → Category → Bool
same_category system system = true
same_category system (foreign n) = false
same_category (foreign m) system = false
same_category (foreign m) (foreign n) = m == n

abbrev pub same_code : ErrorCode → ErrorCode → Bool
same_code a b = (a.value == b.value) && same_category a.category b.category

-- What of Asio and Beast the session calls, by how it completes. The response is what a read delivers.
pub record AsyncWeb (World : Type 0) : Type 0 where
  pub async_resolve : Bytes → Bytes → World → ErrorCode × List ℕ × World
  pub async_connect : List ℕ → World → ErrorCode × World
  pub async_write : ℕ → Bytes → Bytes → TlsStream World → Run (Completion World)
  pub async_read : ℕ → TlsStream World → Run (Completion World)
  -- `net::error::eof`
  pub eof : ErrorCode
  pub mbstowcs : Bytes → ℕ × Bytes

-- What the session waits for; `over` if nothing.
pub data Phase : Type 0 where
  resolving handshaking writing reading closing over : Phase
  connecting : List ℕ → Phase

-- The operation whose failure is printed.
pub data What : Type 0 where
  resolve connect handshake write read shutdown : What

-- `session`; the request is its host and path.
pub record Session (World : Type 0) : Type 0 where
  pub stream : TlsStream World
  pub target : Target
  pub phase : Phase
  pub failures : List (ErrorCode × What)
  pub printed : List Bytes

module _ {World : Type 0} where
  -- `fail`
  abbrev pub fail : ErrorCode → What → Session World → Session World
  fail ec what s = record s { phase = over; failures = (ec, what) ∷ s.failures }

  abbrev pub wait_for : Phase → Session World → Session World
  wait_for phase s = record s { phase = phase }

  -- The handlers.
  unfoldable pub on_resolve : ErrorCode → List ℕ → Session World → Session World
  on_resolve ec results s = if failed ec then fail ec resolve s else wait_for (connecting results) s

  unfoldable pub on_connect : ErrorCode → Session World → Session World
  on_connect ec s = if failed ec then fail ec connect s else wait_for handshaking s

  unfoldable pub on_handshake : ErrorCode → Session World → Session World
  on_handshake ec s = if failed ec then fail ec handshake s else wait_for writing s

  unfoldable pub on_write : ErrorCode → Session World → Session World
  on_write ec s = if failed ec then fail ec write s else wait_for reading s

  unfoldable pub on_read : ErrorCode → Bytes → Session World → Session World
  on_read ec response s =
      if failed ec
      then fail ec read s
      else wait_for closing (record s { printed = response ∷ s.printed })

  -- The end of the stream below is no failure.
  unfoldable pub on_shutdown : ErrorCode → ErrorCode → Session World → Session World
  on_shutdown eof ec s =
      let ec' = if same_code ec eof then no_error else ec in
      if failed ec' then fail ec' shutdown s else wait_for over s

module _ {World : Type 0} (p : Platform World) (web : AsyncWeb World) where
  -- `run`. `none`: an assertion stopped the program.
  unfoldable pub run : Target → TlsStream World → Option (Session World)
  run target t = elim (set_server_hostname p.debug web.mbstowcs target.host t) [
    | none ↦ none
    | some t' ↦
        some
          (record { stream = t'; target = target; phase = resolving; failures = []; printed = [] })
  ]

  -- The operation that the session waits for completes, and its handler runs.
  unfoldable pub complete : ℕ → Session World → Run (Session World)
  complete fuel s = elim s.phase [
    | resolving ↦
        let (ec, results, w) = web.async_resolve s.target.host s.target.port s.stream.world in
        finished (on_resolve ec results (record s { stream = record s.stream { world = w } }))
    | handshaking ↦
        run_map (λ c. on_handshake c.error (record s { stream = c.stream }))
          (async_handshake p client_context fuel client s.stream)
    | writing ↦
        run_map (λ c. on_write c.error (record s { stream = c.stream }))
          (web.async_write fuel s.target.host s.target.path s.stream)
    | reading ↦
        run_map (λ c. on_read c.error c.delivered (record s { stream = c.stream }))
          (web.async_read fuel s.stream)
    | closing ↦
        run_map (λ c. on_shutdown web.eof c.error (record s { stream = c.stream }))
          (async_shutdown p fuel s.stream)
    | over ↦ finished s
    | connecting results ↦
        let (ec, w) = web.async_connect results s.stream.world in
        finished (on_connect ec (record s { stream = record s.stream { world = w } }))
  ]

  -- As many completions one behind the other.
  unfoldable pub completions : ℕ → ℕ → Session World → Run (Session World)
  completions zero fuel s = finished s
  completions (suc n) fuel s = run_then (complete fuel s) (completions n fuel)

  -- `main`, for the arguments behind the program's name: six completions are all that there are. What
  -- the session printed to the standard output, and the exit code.
  unfoldable pub main : ℕ → List Bytes → TlsStream World → Run (List Bytes × ℕ)
  main fuel [] t = finished ([], 1)
  main fuel (url ∷ []) t = elim (regex_match url) [
    | none ↦ finished ([], 1)
    | some what ↦ elim (run (target_of what) t) [
      | none ↦ aborted
      | some s ↦ run_map (λ s'. (s'.printed, 0)) (completions 6 fuel s)
    ]
  ]
  main fuel (a ∷ b ∷ more) t = finished ([], 1)
