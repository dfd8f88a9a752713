-- ===== src/Windows.antt =====
-- The Windows SDK names that include/boost/wintls uses: the documented numeric values of status
-- codes, buffer types and flags, 32-bit integers, and the pointers that a SecBuffer holds.
use boost_windows_tls.Common.{
  ℕ, ◌+◌, ◌%◌, ◌^◌, [], Bytes, Array, slice, take, drop, Bool, not, ◌&&◌,
}

-- SECURITY_STATUS, HRESULT and DWORD values, as 32-bit patterns.
abbrev pub sec_e_ok : ℕ
sec_e_ok = 0

abbrev pub error_success : ℕ
error_success = 0

abbrev pub sec_i_continue_needed : ℕ
sec_i_continue_needed = 0x00090312

abbrev pub sec_e_incomplete_message : ℕ
sec_e_incomplete_message = 0x80090318

abbrev pub sec_i_incomplete_credentials : ℕ
sec_i_incomplete_credentials = 0x00090320

abbrev pub sec_i_renegotiate : ℕ
sec_i_renegotiate = 0x00090321

abbrev pub cert_e_untrustedroot : ℕ
cert_e_untrustedroot = 0x800b0109

-- The types of a SecBuffer.
abbrev pub secbuffer_empty : ℕ
secbuffer_empty = 0

abbrev pub secbuffer_data : ℕ
secbuffer_data = 1

abbrev pub secbuffer_token : ℕ
secbuffer_token = 2

abbrev pub secbuffer_extra : ℕ
secbuffer_extra = 5

abbrev pub secbuffer_stream_trailer : ℕ
secbuffer_stream_trailer = 6

abbrev pub secbuffer_stream_header : ℕ
secbuffer_stream_header = 7

abbrev pub schannel_shutdown : ℕ
schannel_shutdown = 1

-- `static_cast<unsigned long>` and `+=` on an `unsigned long`, which has 32 bits on Windows.
abbrev pub to_ulong : ℕ → ℕ
to_ulong n = n % 2 ^ 32

abbrev pub add_ulong : ℕ → ℕ → ℕ
add_ulong a b = (a + to_ulong b) % 2 ^ 32

-- Memory that the security package allocated: its address and what it holds.
pub record Block : Type 0 where
  pub address : ℕ
  pub bytes : Bytes

-- What `pvBuffer` points at: nothing, a place in the byte array of the object that owns the buffers,
-- or memory of the security package.
pub data Pointer : Type 0 where
  null : Pointer
  inside : ℕ → Pointer
  external : Block → Pointer

-- The `n` bytes behind a pointer.
abbrev pub deref : Array → Pointer → ℕ → Bytes
deref a null n = []
deref a (inside offset) n = slice a offset n
deref a (external block) n = take n block.bytes

-- `ptr + n`
abbrev pub shift : Pointer → ℕ → Pointer
shift null n = null
shift (inside offset) n = inside (offset + n)
shift (external block) n =
    external (record { address = block.address + n; bytes = drop n block.bytes })

-- Whether BOOST_ASSERT, BOOST_VERIFY and assert stop the program. A build with NDEBUG goes on.
abbrev pub aborts : Bool → Bool → Bool
aborts debug condition = debug && not condition
