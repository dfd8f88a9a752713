-- ===== src/NextLayer.antt =====
-- The stream below: what `stream` calls of its next layer, directly or through `net::write`.
use boost_windows_tls.Common.{ℕ, ◌≤◌, ◌≡◌, ◌<◌, false, Bytes, length}
use boost_windows_tls.ErrorCode.{ErrorCode, failed}

pub record ReadResult (World : Type 0) : Type 0 where
  pub error : ErrorCode
  pub bytes : Bytes
  pub world : World

pub record WriteResult (World : Type 0) : Type 0 where
  pub error : ErrorCode
  pub size : ℕ
  pub world : World

pub record NextLayer (World : Type 0) : Type 0 where
  -- `read_some(buffer, ec)`, for a buffer of this size: what it wrote there
  pub read_some : ℕ → World → ReadResult World
  -- `net::write(next_layer, buffers, ec)`, for the bytes of the buffers
  pub write : Bytes → World → WriteResult World

-- The documented behaviour: a read stays within its buffer and brings something unless it fails or
-- the buffer is empty, and a write that does not fail writes all.
pub record IsStream {World : Type 0} (layer : NextLayer World) : Type 0 where
  pub read_within : (n : ℕ) (w : World) → length (layer.read_some n w).bytes ≤ n
  pub read_brings :
      (n : ℕ) (w : World)
      → 0 < n
      → failed (layer.read_some n w).error ≡ false
      → 0 < length (layer.read_some n w).bytes
  pub write_all :
      (bs : Bytes) (w : World)
      → failed (layer.write bs w).error ≡ false
      → (layer.write bs w).size ≡ length bs
