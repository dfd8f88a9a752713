-- ===== src/Examples/EchoServer.antt =====
-- examples/echo_server.cpp: the session of a connection.
pub mod Echoing
pub mod Carrying
pub mod Returning
pub mod Server
use boost_windows_tls.Common.{
  ℕ, ◌≡◌, min, Bool, false, not, ◌!=◌, ◌||◌, if◌then◌else◌, List, [], ◌∷◌, ◌++◌, Bytes, Array,
  slice, store, take,
}
use boost_windows_tls.ErrorCode.{ErrorCode, failed, no_error}
use boost_windows_tls.Asio.{concat}
use boost_windows_tls.Schannel.{CertContext}
use boost_windows_tls.Flags.{system_default}
use boost_windows_tls.Context.{Context, new_context, use_certificate}
use boost_windows_tls.Certificate.{
  pem, x509_to_cert_context, import_private_key_ec, assign_private_key, delete_private_key_ec,
}
use boost_windows_tls.Certificate.Crypto.{CryptApi, Call, returned, thrown, stopped, and_then}
use boost_windows_tls.Handshake.{server}
use boost_windows_tls.Stream.{Run, finished}
use boost_windows_tls.Connection.{
  AsyncWrite, Platform, TlsStream, Completion, run_map, construct, async_handshake, async_read_some,
  async_write_some,
}

abbrev pub sec_i_context_expired : ℕ
sec_i_context_expired = 0x00090317

abbrev pub nte_exists : ℕ
nte_exists = 0x8009000f

-- `sizeof(data_)`
abbrev pub data_size : ℕ
data_size = 1024

-- What a session waits for; `over` if nothing, when its last reference goes.
pub data Phase : Type 0 where
  handshaking reading over : Phase
  writing : Bytes → Phase

-- What a session prints.
pub data Report : Type 0 where
  handshake_failed read_failed write_failed : ErrorCode → Report

-- `session`
pub record Session (World : Type 0) : Type 0 where
  pub stream : TlsStream World
  pub data_ : Array
  pub phase : Phase
  pub reports : List Report

module _ {World : Type 0} where
  -- The constructor. The array starts with whatever it held.
  abbrev pub new_session : TlsStream World → Array → Session World
  new_session stream a = record { stream = stream; data_ = a; phase = over; reports = [] }

  abbrev pub report : Report → Session World → Session World
  report r s = record s { phase = over; reports = r ∷ s.reports }

  abbrev pub do_handshake : Session World → Session World
  do_handshake s = record s { phase = handshaking }

  -- `start()`
  abbrev pub start : Session World → Session World
  start s = do_handshake s

  abbrev pub do_read : Session World → Session World
  do_read s = record s { phase = reading }

  -- The bytes of `buffer(data_, length)`.
  abbrev pub do_write : ℕ → Session World → Session World
  do_write length s = record s { phase = writing (slice s.data_ 0 (min length data_size)) }

  -- The handlers.
  unfoldable pub on_handshake : ErrorCode → Session World → Session World
  on_handshake ec s = if not (failed ec) then do_read s else report (handshake_failed ec) s

  unfoldable pub on_read : ErrorCode → ℕ → Session World → Session World
  on_read ec length s =
      if not (failed ec)
      then do_write length s
      else (if ec.value != sec_i_context_expired
          then report (read_failed ec) s
          else record s { phase = over })

  unfoldable pub on_write : ErrorCode → Session World → Session World
  on_write ec s = if not (failed ec) then do_read s else report (write_failed ec) s

-- One completion: the bytes that a successful read brought or that a successful write took, and the
-- session behind the handler.
pub record Turn (World : Type 0) : Type 0 where
  pub bytes_in : Bytes
  pub bytes_out : Bytes
  pub session : Session World

abbrev pub if_fine : ErrorCode → Bytes → Bytes
if_fine ec bs = if failed ec then [] else bs

module _ {World : Type 0} where
  -- What the completion of each operation leaves.
  abbrev pub handshaken : Session World → Completion World → Turn World
  handshaken s c = record {
    bytes_in = [];
    bytes_out = [];
    session = on_handshake c.error (record s { stream = c.stream });
  }

  -- The read has put its bytes into `data_`.
  abbrev pub has_read : Session World → Completion World → Turn World
  has_read s c = record {
    bytes_in = if_fine c.error c.delivered;
    bytes_out = [];
    session =
        on_read c.error c.count
          (record s { stream = c.stream; data_ = store s.data_ 0 c.delivered });
  }

  abbrev pub has_written : Session World → Bytes → Completion World → Turn World
  has_written s bs c = record {
    bytes_in = [];
    bytes_out = if_fine c.error bs;
    session = on_write c.error (record s { stream = c.stream });
  }

module _ {World : Type 0} (p : Platform World) (ctx : Context)
    (async_write : AsyncWrite World) where
  -- The operation that the session waits for completes, and its handler runs.
  unfoldable pub complete : ℕ → Session World → Run (Turn World)
  complete fuel s = elim s.phase [
    | handshaking ↦ run_map (handshaken s) (async_handshake p ctx fuel server s.stream)
    | reading ↦ run_map (has_read s) (async_read_some p fuel (data_size ∷ []) s.stream)
    | over ↦ finished (record { bytes_in = []; bytes_out = []; session = s })
    | writing bs ↦ run_map (has_written s bs) (async_write fuel bs s.stream)
  ]

  -- Completions one behind the other, with the bytes that came in and that went out in between.
  pub data Serves : Session World → Bytes → Bytes → Session World → Type 0 where
    waits :
        {s s' : Session World} {ins outs : Bytes}
        → ins ≡ []
        → outs ≡ []
        → s' ≡ s
        → Serves s ins outs s'
    completes :
        {s s' : Session World} {ins outs ins' outs' : Bytes}
        → (fuel : ℕ) (t : Turn World) → complete fuel s ≡ finished t
        → Serves t.session ins' outs' s'
        → ins ≡ t.bytes_in ++ ins'
        → outs ≡ t.bytes_out ++ outs'
        → Serves s ins outs s'

-- What a session that reads or writes has yet to write.
abbrev pub pending : Phase → Bytes
pending (writing bs) = bs
pending handshaking = []
pending reading = []
pending over = []
