-- ===== src/DecryptedData.antt =====
-- detail/decrypted_data_buffer.hpp: decrypted bytes that the caller's buffers had no room for.
pub mod Laws
use boost_windows_tls.Common.{
  ℕ, Bool, ◌==◌, if◌then◌else◌, Option, none, some, List, [], ◌∷◌, Bytes, Array, length, slice,
  store,
}
use boost_windows_tls.Windows.{aborts}
use boost_windows_tls.Asio.{Asio, MutableBuffer, buffer}

-- `available_data_` points into `buffer_`.
pub record DecryptedDataBuffer : Type 0 where
  pub available_data : MutableBuffer
  pub buffer_ : Array

-- A default-constructed buffer; the array starts with whatever it held.
abbrev pub fresh : Array → DecryptedDataBuffer
fresh a = record { available_data = buffer 0; buffer_ = a }

abbrev pub empty : DecryptedDataBuffer → Bool
empty d = d.available_data.size == 0

-- The bytes that wait to be read.
abbrev pub available : DecryptedDataBuffer → Bytes
available d = slice d.buffer_ d.available_data.offset d.available_data.size

module _ (net : Asio) where
  -- The bytes that went to the caller, and the buffer without them.
  unfoldable pub get : List ℕ → DecryptedDataBuffer → Bytes × DecryptedDataBuffer
  get sizes d =
      let copied = net.buffer_copy sizes (available d ∷ []) in
      (copied, record d { available_data = net.advance d.available_data (length copied) })

  -- `none`: the assertion failed.
  unfoldable pub fill : Bool → ℕ → List Bytes → DecryptedDataBuffer → Option DecryptedDataBuffer
  fill debug buffer_size source d =
      let copied = net.buffer_copy (buffer_size ∷ []) source in
      if aborts debug (empty d)
      then none
      else some
          (record { available_data = buffer (length copied); buffer_ = store d.buffer_ 0 copied })
