-- ===== src/Schannel.antt =====
-- sspi_functions.hpp and sspi_sec_handle.hpp: the handles, and the security package behind the
-- function table as an interface. `World` is all state outside the program.
use boost_windows_tls.Common.{ℕ, Bool, not, ◌&&◌, ◌==◌, Option, List, Bytes, Array}
use boost_windows_tls.Buffers.{SspiBuffer, Sequence2, Sequence4}

-- `CtxtHandle` and `CredHandle`, of a `sspi_sec_handle`.
pub record Handle : Type 0 where
  pub lower : ℕ
  pub upper : ℕ

-- `T handle_{0, 0}`
abbrev pub null_handle : Handle
null_handle = record { lower = 0; upper = 0 }

-- `operator bool`
abbrev pub is_set : Handle → Bool
is_set h = not (h.lower == 0 && h.upper == 0)

-- A `CERT_CONTEXT`, by its address.
abbrev pub CertContext : Type 0
CertContext = ℕ

-- `SCHANNEL_CRED`, with the usage that goes beside it.
pub record Credentials : Type 0 where
  pub usage : ℕ
  pub version : ℕ
  pub enabled_protocols : ℕ
  pub flags : ℕ
  pub certificates : List CertContext

-- The input of a handshake call: the buffers, and the array that they point into.
pub record TokenInput : Type 0 where
  pub buffers : Sequence2
  pub memory : Array

-- The arguments of InitializeSecurityContext that vary between its calls.
pub record InitializeArgs : Type 0 where
  pub credential : Handle
  pub existing : Option Handle
  pub target_name : Option Bytes
  pub context_req : ℕ
  pub input : Option TokenInput
  pub output : SspiBuffer

pub record AcceptArgs : Type 0 where
  pub credential : Handle
  pub existing : Option Handle
  pub context_req : ℕ
  pub input : TokenInput
  pub output : SspiBuffer

-- `SecPkgContext_StreamSizes`
pub record StreamSizes : Type 0 where
  pub cb_header : ℕ
  pub cb_trailer : ℕ
  pub cb_maximum_message : ℕ

module _ (World : Type 0) where
  pub record AcquireResult : Type 0 where
    pub status : ℕ
    pub credential : Handle
    pub world : World

  -- What a handshake call leaves: the handle that it would store through `phNewContext`, the input
  -- buffers and the output buffer.
  pub record ContextResult : Type 0 where
    pub status : ℕ
    pub new_context : Handle
    pub input : Sequence2
    pub output : SspiBuffer
    pub world : World

  -- What DecryptMessage or EncryptMessage leaves: the buffers, and the array that they point into.
  pub record MessageResult : Type 0 where
    pub status : ℕ
    pub buffers : Sequence4
    pub memory : Array
    pub world : World

  pub record QueryResult (A : Type 0) : Type 0 where
    pub status : ℕ
    pub value : A
    pub world : World

  pub record Schannel : Type 0 where
    pub acquire_credentials_handle : Credentials → World → AcquireResult
    pub initialize_security_context : InitializeArgs → World → ContextResult
    pub accept_security_context : AcceptArgs → World → ContextResult
    pub decrypt_message : Handle → Sequence4 → Array → World → MessageResult
    pub encrypt_message : Handle → Sequence4 → Array → World → MessageResult
    pub query_stream_sizes : Handle → World → QueryResult StreamSizes
    pub query_remote_cert : Handle → World → QueryResult CertContext
    pub apply_control_token : Handle → SspiBuffer → World → ℕ × World
    pub free_context_buffer : ℕ → World → World
    pub delete_security_context : Handle → World → World
    pub free_credentials_handle : Handle → World → World
