-- ===== src/Async/Write.antt =====
-- detail/async_write.hpp: the coroutine behind `async_write_some`.
use boost_windows_tls.Common.{false, ℕ, suc, zero, ◌≡◌, arith, if◌then◌else◌, List, Bytes}
use boost_windows_tls.ErrorCode.{ErrorCode, failed, no_error}
use boost_windows_tls.Asio.{Asio, concat}
use boost_windows_tls.Schannel.{Handle, Schannel}
use boost_windows_tls.NextLayer.{NextLayer}
use boost_windows_tls.Encrypt.{EncryptBuffers, encrypt, wire}
use boost_windows_tls.Stream.{WriteSome, Run, finished, unfinished, write_some}

-- Where `operator()` resumes: at its start, or behind the write.
pub data Point : Type 0 where
  start after_write : Point

-- How a call of `operator()` ends: it starts a write of these bytes, or completes.
pub data Action : Type 0 where
  async_write : Bytes → Action
  complete : ErrorCode → ℕ → Action

pub record AsyncWrite : Type 0 where
  pub point : Point
  pub bytes_consumed : ℕ

-- The constructor.
abbrev pub new_write : AsyncWrite
new_write = record { point = start; bytes_consumed = 0 }

pub record Turn (World : Type 0) : Type 0 where
  pub action : Action
  pub coroutine : AsyncWrite
  pub encrypt : EncryptBuffers
  pub world : World

module _ {World : Type 0} (sspi : Schannel World) (net : Asio) (ctxt : Handle)
    (source : List Bytes) where
  -- `operator()`, from where it resumes.
  unfoldable pub resume : Point → AsyncWrite → ErrorCode → EncryptBuffers → World → Turn World
  resume start a ec e w =
      let out = encrypt sspi net ctxt source ec e w in
      if failed out.error
      then record {
        action = complete out.error 0;
        coroutine = record a { bytes_consumed = out.size_encrypted };
        encrypt = out.buffers;
        world = out.world;
      }
      else record {
        action = async_write (concat (wire out.buffers));
        coroutine = record { point = after_write; bytes_consumed = out.size_encrypted };
        encrypt = out.buffers;
        world = out.world;
      }
  resume after_write a ec e w = record {
    action = complete ec a.bytes_consumed;
    coroutine = a;
    encrypt = e;
    world = w;
  }

  module _ (layer : NextLayer World) where
    -- The event loop's part: it performs the action and calls the coroutine again.
    unfoldable pub run : ℕ → AsyncWrite → ErrorCode → EncryptBuffers → World → Run (WriteSome World)
    run zero a ec e w = unfinished
    run (suc fuel) a ec e w =
        let t = resume a.point a ec e w in
        elim t.action [
          | async_write bs ↦
              let sent = layer.write bs t.world in
              run fuel t.coroutine sent.error t.encrypt sent.world
          | complete ec' n ↦
              finished (record { error = ec'; count = n; encrypt = t.encrypt; world = t.world })
        ]

    -- `async_write_some(buffers, handler)`: what the handler gets.
    unfoldable pub async_write_some : ℕ → EncryptBuffers → World → Run (WriteSome World)
    async_write_some fuel e w = run fuel new_write no_error e w

    -- Two calls of the coroutine suffice, and the handler gets what the blocking write returns, but for
    -- the count when the next layer fails: then the blocking write returns 0, and the handler gets the
    -- number of bytes that were encrypted.
    pub async_write_same :
        (fuel : ℕ) (e : EncryptBuffers) (w : World)
        → let out = write_some sspi net layer ctxt source no_error e w in
          let encrypted = encrypt sspi net ctxt source no_error e w in
          async_write_some (suc (suc fuel)) e w
          ≡ finished (record out {
            count = if failed encrypted.error then 0 else encrypted.size_encrypted;
          })
    unfolding async_write_some run resume write_some
    async_write_same fuel e w = ground arith

    -- A success that the handler gets is what the blocking write returns.
    pub async_write_sound :
        (fuel : ℕ) (e : EncryptBuffers) (w : World) (r : WriteSome World)
        → async_write_some fuel e w ≡ finished r
        → failed r.error ≡ false
        → write_some sspi net layer ctxt source no_error e w ≡ r
    unfolding async_write_some run resume write_some
    async_write_sound zero e w r h fine = absurd (ground arith)
    async_write_sound (suc zero) e w r h fine = ground arith
    async_write_sound (suc (suc fuel)) e w r h fine = ground arith
