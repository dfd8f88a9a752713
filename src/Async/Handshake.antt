-- ===== src/Async/Handshake.antt =====
-- detail/async_handshake.hpp: the coroutine behind `async_handshake`.
use boost_windows_tls.Common.{
  ◌&&◌, ℕ, suc, zero, ltb, not, Bool, if◌then◌else◌, Option, none, some, Bytes, length,
}
use boost_windows_tls.Windows.{aborts}
use boost_windows_tls.ErrorCode.{ErrorCode, failed, no_error}
use boost_windows_tls.Asio.{Asio}
use boost_windows_tls.ContextBuffer.{asio_buffer}
use boost_windows_tls.Schannel.{Schannel}
use boost_windows_tls.Context.{CertApi, Context}
use boost_windows_tls.NextLayer.{NextLayer}
use boost_windows_tls.Handshake.{
  HandshakeType, HandshakeState, Session, start, step, size_written, last_error_code,
}
use boost_windows_tls.Handshake
use boost_windows_tls.Stream.{Run, finished, aborted, unfinished, receive_handshake}

-- `async_handshake::state`: what the last action was.
pub data IoState : Type 0 where
  idle reading writing : IoState

-- Where `operator()` resumes: at its start or in the loop, which both lead to the head of the loop, or
-- behind one of the posts.
pub data Point : Type 0 where
  loop_head after_error_post after_done_post : Point

pub data Action : Type 0 where
  async_read_some : ℕ → Action
  async_write : Bytes → Action
  post : ErrorCode → ℕ → Action
  complete : ErrorCode → Action

pub record AsyncHandshake : Type 0 where
  pub entry_count : ℕ
  pub state : IoState
  pub point : Point

-- The constructor, but for the call that starts the handshake.
abbrev pub new_async : AsyncHandshake
new_async = record { entry_count = 0; state = idle; point = loop_head }

pub record Turn (World : Type 0) : Type 0 where
  pub action : Action
  pub coroutine : AsyncHandshake
  pub session : Session World

module _ {World : Type 0} where
  -- Posts the coroutine if this is its first entry, and completes with the last error otherwise.
  abbrev complete_or_post : Point → AsyncHandshake → ErrorCode → ℕ → Session World → Turn World
  complete_or_post p a ec size s = record {
    action =
        if not (ltb 1 a.entry_count) then post ec size else complete (last_error_code s.handshake);
    coroutine = record a { point = p };
    session = s;
  }

  -- What follows an answer of `handshake_()`. At the end the last error must be none.
  unfoldable pub answer :
      Bool → AsyncHandshake → ErrorCode → ℕ → HandshakeState → Session World → Option (Turn World)
  answer debug a ec size HandshakeState.data_needed s = some (record {
    action = async_read_some s.handshake.in_buffer.size;
    coroutine = record a { state = reading; point = loop_head };
    session = s;
  })
  answer debug a ec size HandshakeState.data_available s = some (record {
    action = async_write (asio_buffer s.handshake.out_buffer);
    coroutine = record a { state = writing; point = loop_head };
    session = s;
  })
  answer debug a ec size HandshakeState.error s =
      some (complete_or_post after_error_post a ec size s)
  answer debug a ec size HandshakeState.done s =
      if ltb 1 a.entry_count && aborts debug (not (failed (last_error_code s.handshake)))
      then none
      else some (complete_or_post after_done_post a ec size s)

module _ {World : Type 0} (sspi : Schannel World) (net : Asio) (debug : Bool) (api : CertApi World)
    (ctx : Context) where
  -- The switch over `state_`: the result of the last action goes to the handshake.
  unfoldable pub take_result : IoState → ℕ → Session World → Option (Session World)
  take_result idle size s = some s
  take_result reading size s =
      some (record s { handshake = Handshake.size_read net size s.handshake })
  take_result writing size s = size_written sspi debug size s

  -- From the head of the loop on.
  unfoldable pub loop : AsyncHandshake → ErrorCode → ℕ → Session World → Option (Turn World)
  loop a ec size s = elim (step sspi net debug api ctx s) [
    | none ↦ none
    | some (state, s') ↦ answer debug a ec size state s'
  ]

  -- The coroutine's part of `operator()`.
  unfoldable pub reenter :
      Point → AsyncHandshake → ErrorCode → ℕ → Session World → Option (Turn World)
  reenter loop_head a ec size s = loop a ec size s
  reenter after_error_post a ec size s =
      some (record { action = complete (last_error_code s.handshake); coroutine = a; session = s })
  reenter after_done_post a ec size s =
      if aborts debug (not (failed (last_error_code s.handshake)))
      then none
      else some
          (record { action = complete (last_error_code s.handshake); coroutine = a; session = s })

  -- `operator()(self, ec, length)`. `none`: an assertion stopped the program.
  unfoldable pub resume : AsyncHandshake → ErrorCode → ℕ → Session World → Option (Turn World)
  resume a ec size s =
      if failed ec
      then some (record { action = complete ec; coroutine = a; session = s })
      else elim (take_result a.state size s) [
        | none ↦ none
        | some s' ↦
            reenter a.point (record a { entry_count = suc a.entry_count; state = idle }) ec size s'
      ]

  module _ (layer : NextLayer World) where
    -- The event loop's part: it performs the action and calls the coroutine again.
    unfoldable pub perform :
        (AsyncHandshake → ErrorCode → ℕ → Session World → Run (ErrorCode × Session World))
        → Turn World
        → Run (ErrorCode × Session World)
    perform rest t = elim t.action [
      | async_read_some n ↦
          let r = layer.read_some n t.session.world in
          rest t.coroutine r.error (length r.bytes) (record t.session {
            handshake = receive_handshake r.bytes t.session.handshake;
            world = r.world;
          })
      | async_write bs ↦
          let r = layer.write bs t.session.world in
          rest t.coroutine r.error r.size (record t.session { world = r.world })
      | post ec n ↦ rest t.coroutine ec n t.session
      | complete ec ↦ finished (ec, t.session)
    ]

    -- Calls of `operator()` until it completes, with fuel for them.
    unfoldable pub run :
        ℕ → AsyncHandshake → ErrorCode → ℕ → Session World → Run (ErrorCode × Session World)
    run zero a ec size s = unfinished
    run (suc fuel) a ec size s = elim (resume a ec size s) [
      | none ↦ aborted
      | some t ↦ perform (run fuel) t
    ]

    -- `async_handshake(type, handler)`: what the handler gets. The constructor of the coroutine starts
    -- the handshake.
    unfoldable pub async_handshake :
        ℕ → HandshakeType → Session World → Run (ErrorCode × Session World)
    async_handshake fuel type s = run fuel new_async no_error 0 (start sspi ctx type s)
