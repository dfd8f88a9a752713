-- ===== src/Asio.antt =====
-- The functions of Boost.Asio on buffers that the library calls, as an interface with the laws that
-- their documentation states.
use boost_windows_tls.Common.{ℕ, ◌+◌, ◌-◌, ◌≡◌, refl, min, List, [], ◌∷◌, ◌++◌, Bytes, length, take}

-- A `mutable_buffer` into an array: where it starts, and its size.
pub record MutableBuffer : Type 0 where
  pub offset : ℕ
  pub size : ℕ

-- `net::buffer(array)`, and `net::buffer(array.data(), n)`
abbrev pub buffer : ℕ → MutableBuffer
buffer n = record { offset = 0; size = n }

abbrev pub sum : List ℕ → ℕ
sum [] = 0
sum (n ∷ ns) = n + sum ns

-- The bytes of a buffer sequence, one buffer after the other.
abbrev pub concat : List Bytes → Bytes
concat [] = []
concat (b ∷ bs) = b ++ concat bs

pub record Asio : Type 0 where
  -- `buffer + n`
  pub advance : MutableBuffer → ℕ → MutableBuffer
  -- `buffer_size`
  pub buffer_size : List Bytes → ℕ
  -- `buffer_copy(target, source)`: the sizes of the target's buffers, and the bytes of the source's.
  -- The result is what was copied, and the number returned is its length.
  pub buffer_copy : List ℕ → List Bytes → Bytes

-- The documented behaviour.
pub record IsDocumented (net : Asio) : Type 0 where
  pub advance_lem :
      (b : MutableBuffer) (n : ℕ)
      → net.advance b n ≡ record { offset = b.offset + min n b.size; size = b.size - n }
  pub buffer_size_lem : (bs : List Bytes) → net.buffer_size bs ≡ length (concat bs)
  pub buffer_copy_lem :
      (sizes : List ℕ) (source : List Bytes)
      → net.buffer_copy sizes source ≡ take (sum sizes) (concat source)

-- An implementation with that behaviour.
abbrev pub reference : Asio
reference = record {
  advance = λ b n. record { offset = b.offset + min n b.size; size = b.size - n };
  buffer_size = λ bs. length (concat bs);
  buffer_copy = λ sizes source. take (sum sizes) (concat source);
}

pub reference-IsDocumented : IsDocumented reference
reference-IsDocumented = record {
  advance_lem = λ b n. refl;
  buffer_size_lem = λ bs. refl;
  buffer_copy_lem = λ sizes source. refl;
}
