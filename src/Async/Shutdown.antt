-- ===== src/Async/Shutdown.antt =====
-- detail/async_shutdown.hpp: the coroutine behind `async_shutdown`.
use boost_windows_tls.Common.{
  ℕ, suc, zero, ltb, not, ◌≡◌, arith, Bool, false, if◌then◌else◌, Option, none, some, Bytes,
}
use boost_windows_tls.ErrorCode.{ErrorCode, failed, no_error}
use boost_windows_tls.ContextBuffer.{asio_buffer}
use boost_windows_tls.Schannel.{Handle, Schannel}
use boost_windows_tls.NextLayer.{NextLayer}
use boost_windows_tls.Shutdown.{SspiShutdown, start_shutdown, shutdown_written}
use boost_windows_tls.Stream.{Closed, Run, finished, aborted, unfinished}

-- Where `operator()` resumes: at its start, behind the write, or behind the post.
pub data Point : Type 0 where
  start after_write after_post : Point

pub data Action : Type 0 where
  async_write : Bytes → Action
  post : ErrorCode → ℕ → Action
  complete : ErrorCode → Action

pub record AsyncShutdown : Type 0 where
  pub entry_count : ℕ
  pub point : Point

-- The constructor.
abbrev pub new_shutdown : AsyncShutdown
new_shutdown = record { entry_count = 0; point = start }

pub record Turn (World : Type 0) : Type 0 where
  pub action : Action
  pub coroutine : AsyncShutdown
  pub shutdown : SspiShutdown
  pub ctxt_handle : Handle
  pub world : World

module _ {World : Type 0} (sspi : Schannel World) (debug : Bool) (cred : Handle) where
  -- The coroutine's part, with the error code that `shutdown_()` has just returned and the session that
  -- it left.
  unfoldable pub reenter :
      Point → AsyncShutdown → ℕ → ErrorCode → SspiShutdown → Handle → World → Option (Turn World)
  reenter start a size ec s ctxt w = some (record {
    action =
        if not (failed ec)
        then async_write (asio_buffer s.buffer_)
        else (if not (ltb 1 a.entry_count) then post ec size else complete ec);
    coroutine = record a { point = if not (failed ec) then after_write else after_post };
    shutdown = s;
    ctxt_handle = ctxt;
    world = w;
  })
  reenter after_write a size ec s ctxt w = elim (shutdown_written sspi debug size s w) [
    | none ↦ none
    | some (s', w') ↦ some (record {
      action = complete no_error;
      coroutine = a;
      shutdown = s';
      ctxt_handle = ctxt;
      world = w';
    })
  ]
  reenter after_post a size ec s ctxt w =
      some (record {
        action = complete ec;
        coroutine = a;
        shutdown = s;
        ctxt_handle = ctxt;
        world = w;
      })

  -- `operator()(self, ec, size_written)`. `shutdown_()` is called before the coroutine is entered again,
  -- so also behind the write and behind the post.
  unfoldable pub resume :
      AsyncShutdown → ErrorCode → ℕ → SspiShutdown → Handle → World → Option (Turn World)
  resume a ec size s ctxt w =
      let r = start_shutdown sspi cred ctxt s w in
      if failed ec
      then some (record {
        action = complete ec;
        coroutine = a;
        shutdown = s;
        ctxt_handle = ctxt;
        world = w;
      })
      else reenter a.point (record a { entry_count = suc a.entry_count }) size r.error r.shutdown
          r.ctxt_handle r.world

  module _ (layer : NextLayer World) where
    -- The event loop's part: it performs the action and calls the coroutine again.
    unfoldable pub run :
        ℕ → AsyncShutdown → ErrorCode → ℕ → SspiShutdown → Handle → World → Run (Closed World)
    run zero a ec size s ctxt w = unfinished
    run (suc fuel) a ec size s ctxt w = elim (resume a ec size s ctxt w) [
      | none ↦ aborted
      | some t ↦ elim t.action [
        | async_write bs ↦
            let sent = layer.write bs t.world in
            run fuel t.coroutine sent.error sent.size t.shutdown t.ctxt_handle sent.world
        | post ec' n ↦ run fuel t.coroutine ec' n t.shutdown t.ctxt_handle t.world
        | complete ec' ↦ finished (record {
          error = ec';
          shutdown = t.shutdown;
          ctxt_handle = t.ctxt_handle;
          world = t.world;
        })
      ]
    ]

    -- `async_shutdown(handler)`: what the handler gets.
    unfoldable pub async_shutdown : ℕ → SspiShutdown → Handle → World → Run (Closed World)
    async_shutdown fuel s ctxt w = run fuel new_shutdown no_error 0 s ctxt w

    -- A closing token that was written without an error is made a second time: the security package
    -- is asked again, and it is the second token whose size is compared with what was written and
    -- that is dropped. With assertions on, the program stops if the sizes differ. Otherwise the handler
    -- gets no error, even where the second token could not be made.
    pub async_shutdown_twice :
        (fuel : ℕ) (s : SspiShutdown) (ctxt : Handle) (w : World)
        → let first = start_shutdown sspi cred ctxt s w in
          let sent = layer.write (asio_buffer first.shutdown.buffer_) first.world in
          let second = start_shutdown sspi cred first.ctxt_handle first.shutdown sent.world in
          failed first.error ≡ false
          → failed sent.error ≡ false
          → async_shutdown (suc (suc fuel)) s ctxt w
            ≡ (elim (shutdown_written sspi debug sent.size second.shutdown second.world)
                as (λ _. Run (Closed World)) [
                  | none ↦ aborted
                  | some (s', w') ↦ finished (record {
                    error = no_error;
                    shutdown = s';
                    ctxt_handle = second.ctxt_handle;
                    world = w';
                  })
                ])
    unfolding async_shutdown run resume reenter
    async_shutdown_twice fuel s ctxt w made written = ground (arith, made, written)
