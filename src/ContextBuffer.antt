-- ===== src/ContextBuffer.antt =====
-- detail/sspi_context_buffer.hpp: memory of the security package, to be freed by the holder.
use boost_windows_tls.Common.{ℕ, suc, Bool, true, false, ◌==◌, Bytes, Array}
use boost_windows_tls.Windows.{Pointer, null, inside, external, deref}

-- `sspi_context_buffer`, by its only field `buffer_`.
pub record ContextBuffer : Type 0 where
  pub data_ : Pointer
  pub size : ℕ

-- The default constructor.
abbrev pub empty_buffer : ContextBuffer
empty_buffer = record { data_ = null; size = 0 }

abbrev pub is_null : Pointer → Bool
is_null null = true
is_null (inside offset) = false
is_null (external block) = false

-- The address as FreeContextBuffer gets it; 0 is the null pointer.
abbrev pub address : Pointer → ℕ
address null = 0
address (inside offset) = suc offset
address (external block) = block.address

-- `empty()`
abbrev pub is_empty : ContextBuffer → Bool
is_empty b = b.size == 0

abbrev no_array : Array
no_array i = 0

-- `asio_buffer()`: the bytes that the buffer stands for.
abbrev pub asio_buffer : ContextBuffer → Bytes
asio_buffer b = deref no_array b.data_ b.size

-- The destructor: the address that it frees.
abbrev pub destroy : ContextBuffer → ℕ
destroy b = address b.data_

-- The move constructor: the new buffer, and what is left of the old one.
abbrev pub move : ContextBuffer → ContextBuffer × ContextBuffer
move other = (other, empty_buffer)

-- The move assignment: the target, and what is left of the source.
unfoldable pub move_assign : ContextBuffer → ContextBuffer → ContextBuffer × ContextBuffer
move_assign target other = (other, empty_buffer)

-- `target = sspi_context_buffer{...}`: the assignment, then the destructor of the temporary. The
-- second part is the address that is freed.
unfoldable pub assign_temporary : ContextBuffer → ContextBuffer → ContextBuffer × ℕ
unfolding move_assign
assign_temporary target temporary =
    let (target', left) = move_assign target temporary in (target', destroy left)
