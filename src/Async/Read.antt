-- ===== src/Async/Read.antt =====
-- detail/async_read.hpp: the coroutine behind `async_read_some`.
use boost_windows_tls.Common.{
  ℕ, zero, suc, ltb, not, Bool, if◌then◌else◌, Option, none, some, List, [], Bytes, length,
}
use boost_windows_tls.ErrorCode.{ErrorCode, failed, no_error, make_error_code}
use boost_windows_tls.Asio.{Asio}
use boost_windows_tls.Schannel.{Handle, Schannel}
use boost_windows_tls.NextLayer.{NextLayer}
use boost_windows_tls.Decrypt.{SspiDecrypt, DecryptState, Stepped, decrypt}
use boost_windows_tls.Decrypt
use boost_windows_tls.Stream.{ReadSome, Run, finished, aborted, unfinished, receive}

-- Where `operator()` resumes: at its start, behind the read, or behind the post.
pub data Point : Type 0 where
  start after_read after_post : Point

-- How a call of `operator()` ends: it starts a read into a buffer of this size, posts itself with these
-- arguments, or completes.
pub data Action : Type 0 where
  async_read_some : ℕ → Action
  post : ErrorCode → ℕ → Action
  complete : ErrorCode → ℕ → Action

pub record AsyncRead : Type 0 where
  pub entry_count : ℕ
  pub point : Point

-- The constructor.
abbrev pub new_read : AsyncRead
new_read = record { entry_count = 0; point = start }

abbrev pub is_continuation : ℕ → Bool
is_continuation entry_count = ltb 1 entry_count

-- What one call of `operator()` leaves.
pub record Turn (World : Type 0) : Type 0 where
  pub action : Action
  pub coroutine : AsyncRead
  pub delivered : Bytes
  pub decrypt : SspiDecrypt
  pub world : World

module _ {World : Type 0} where
  -- The body of the loop and what is behind it, for the answer of `decrypt_`.
  unfoldable pub answer : AsyncRead → ErrorCode → ℕ → Stepped World → Turn World
  answer a ec size s = elim s.state [
    | DecryptState.data_needed ↦ record {
      action = async_read_some s.decrypt.input_buffer.size;
      coroutine = record a { point = after_read };
      delivered = [];
      decrypt = s.decrypt;
      world = s.world;
    }
    | DecryptState.error ↦ record {
      action =
          if not (is_continuation a.entry_count)
          then post ec size
          else complete (make_error_code s.decrypt.last_error) 0;
      coroutine = record a { point = after_post };
      delivered = [];
      decrypt = s.decrypt;
      world = s.world;
    }
    | DecryptState.data_available ↦ record {
      action = complete no_error s.decrypt.size_decrypted;
      coroutine = a;
      delivered = s.delivered;
      decrypt = s.decrypt;
      world = s.world;
    }
  ]

module _ {World : Type 0} (layer : NextLayer World) where
  -- The event loop's part: it performs the action and calls the coroutine again.
  unfoldable pub perform :
      (AsyncRead → ErrorCode → ℕ → SspiDecrypt → World → Run (ReadSome World))
      → Turn World
      → Run (ReadSome World)
  perform rest t = elim t.action [
    | async_read_some n ↦
        let r = layer.read_some n t.world in
        rest t.coroutine r.error (length r.bytes) (receive r.bytes t.decrypt) r.world
    | post ec n ↦ rest t.coroutine ec n t.decrypt t.world
    | complete ec n ↦ finished (record {
      error = ec;
      count = n;
      delivered = t.delivered;
      decrypt = t.decrypt;
      world = t.world;
    })
  ]

module _ {World : Type 0} (sspi : Schannel World) (net : Asio) (debug : Bool) (ctxt : Handle)
    (sizes : List ℕ) where
  -- From the head of the loop on.
  unfoldable pub loop : AsyncRead → ErrorCode → ℕ → SspiDecrypt → World → Option (Turn World)
  loop a ec size d w = elim (decrypt sspi net debug ctxt sizes d w) [
    | none ↦ none
    | some s ↦ some (answer a ec size s)
  ]

  -- The coroutine's part of `operator()`.
  unfoldable pub reenter :
      Point → AsyncRead → ErrorCode → ℕ → SspiDecrypt → World → Option (Turn World)
  reenter start a ec size d w = loop a ec size d w
  reenter after_read a ec size d w = loop a ec size (Decrypt.size_read net size d) w
  reenter after_post a ec size d w = some (record {
    action = complete (make_error_code d.last_error) 0;
    coroutine = a;
    delivered = [];
    decrypt = d;
    world = w;
  })

  -- `operator()(self, ec, size_read)`. `none`: an assertion stopped the program.
  unfoldable pub resume : AsyncRead → ErrorCode → ℕ → SspiDecrypt → World → Option (Turn World)
  resume a ec size d w =
      if failed ec
      then some (record {
        action = complete ec size;
        coroutine = a;
        delivered = [];
        decrypt = d;
        world = w;
      })
      else reenter a.point (record a { entry_count = suc a.entry_count }) ec size d w

  module _ (layer : NextLayer World) where
    -- Calls of `operator()` until it completes, with fuel for them.
    unfoldable pub run : ℕ → AsyncRead → ErrorCode → ℕ → SspiDecrypt → World → Run (ReadSome World)
    run zero a ec size d w = unfinished
    run (suc fuel) a ec size d w = elim (resume a ec size d w) [
      | none ↦ aborted
      | some t ↦ perform layer (run fuel) t
    ]

    -- `async_read_some(buffers, handler)`: what the handler gets.
    unfoldable pub async_read : ℕ → SspiDecrypt → World → Run (ReadSome World)
    async_read fuel d w = run fuel new_read no_error 0 d w
