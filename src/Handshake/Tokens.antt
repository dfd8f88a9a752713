-- ===== src/Handshake/Tokens.antt =====
-- What becomes of the memory of a handshake token.
use boost_windows_tls.Common.{ℕ, ◌≡◌, arith, Bool, some, List, ◌∷◌}
use boost_windows_tls.ContextBuffer.{empty_buffer, assign_temporary}
use boost_windows_tls.Schannel.{Schannel}
use boost_windows_tls.Handshake.{Session, size_written}

-- The addresses that the program has given to FreeContextBuffer, the last one first.
pub record FreeLog {World : Type 0} (sspi : Schannel World) : Type 0 where
  pub freed : World → List ℕ
  pub logs : (a : ℕ) (w : World) → freed (sspi.free_context_buffer a w) ≡ a ∷ freed w

module _ {World : Type 0} (sspi : Schannel World) (log : FreeLog sspi) (debug : Bool) where
  -- Once a token has been written the handshake holds no memory of the package any more, but all
  -- that was freed is the null pointer: the memory of the token never is.
  pub size_written_leaks :
      (size : ℕ) (s s' : Session World)
      → size_written sspi debug size s ≡ some s'
      → (s'.handshake.out_buffer ≡ empty_buffer) × (log.freed s'.world ≡ 0 ∷ log.freed s.world)
  unfolding size_written assign_temporary
  size_written_leaks size s s' e = ground (arith, log.logs 0 s.world)
