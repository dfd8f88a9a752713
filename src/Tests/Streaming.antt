-- ===== src/Tests/Streaming.antt =====
-- Reading, writing and shutting down, blocking and asynchronous, at concrete inputs.
use boost_windows_tls.Common.{
  ◌==◌, zero, ◌≡◌, ◌≢◌, refl, true, if◌then◌else◌, arith, none, some, List, [], ◌∷◌, Bytes,
}
use boost_windows_tls.Windows.{inside, sec_e_ok, secbuffer_data}
use boost_windows_tls.ErrorCode.{no_error, failed}
use boost_windows_tls.Asio.{reference, reference-IsDocumented, concat, buffer}
use boost_windows_tls.Buffers.{sspi_buffer, const_buffers}
use boost_windows_tls.ContextBuffer.{empty_buffer, asio_buffer}
use boost_windows_tls.Schannel.{Schannel}
use boost_windows_tls.Decrypt.{
  SspiDecrypt, buffer_size, decrypt, decrypt_received, deliver, keep_extra,
}
use boost_windows_tls.Decrypt
use boost_windows_tls.Decrypt.Deliver.{IsValid}
use boost_windows_tls.Encrypt.{new_encrypt_buffers, prepare, encrypt}
use boost_windows_tls.Encrypt.Layout.{IsSized, IsLaidOut, prepare-IsLaidOut}
use boost_windows_tls.Shutdown.{SspiShutdown, start_shutdown, shutdown_written}
use boost_windows_tls.Stream.{
  ReadSome, Closed, Run, finished, aborted, unfinished, read_some, write_some, handle_decrypted,
}
use boost_windows_tls.Stream.Reading.{read_some_ends}
use boost_windows_tls.Stream.Repeating.{CountsOr, read_some_repeats}
use boost_windows_tls.Buffers.{sspi_buffer}
use boost_windows_tls.Stream.Counting.{Counts, read_some_counts}
use boost_windows_tls.Stream.Writing.{write_some_sends}
use boost_windows_tls.Async.Read.{async_read}
use boost_windows_tls.Async.ReadLaws.{async_read_same}
use boost_windows_tls.Async.Write.{async_write_some, async_write_same}
use boost_windows_tls.Async.Shutdown.{async_shutdown, async_shutdown_twice}
use boost_windows_tls.DecryptedData.{get, fill}
use boost_windows_tls.Stream.Plaintext.{Ahead, Conserves, one_more, no_more}
use boost_windows_tls.Stream.Refinement.{read_some-Conserves}
use boost_windows_tls.Tests.Protocol.{protocol}
use boost_windows_tls.Tests.Fixtures.{
  token, World, handle, schannel, schannel-DecryptsInPlace, schannel-RecordsFit,
  schannel-AlwaysHasData, schannel-ReportsSizes, layer, layer-IsStream, layer-ReportsCleanly,
}

-- Nothing has been received yet.
abbrev unread : SspiDecrypt
unread = record {
  size_decrypted = 0;
  input_buffer = buffer buffer_size;
  last_error = sec_e_ok;
  buffers = record {
    b0 = record { cb_buffer = 0; buffer_type = secbuffer_data; pv_buffer = inside 0 };
    b1 = sspi_buffer 0;
    b2 = sspi_buffer 0;
    b3 = sspi_buffer 0;
  };
  encrypted_data = λ i. 0;
  decrypted_data = record { available_data = buffer 0; buffer_ = λ i. 0 };
}

unread-IsValid : IsValid unread
unread-IsValid = record { fits = omega arith; at_front = refl }

-- A record of three bytes arrives in two chunks.
abbrev chunks : World
chunks = record { freed = []; incoming = (3 ∷ 10 ∷ []) ∷ (11 ∷ 12 ∷ []) ∷ []; sent = [] }

read_some_ends_example :
    (r : ReadSome World) × (read_some schannel reference layer true 65540 handle
        (2 ∷ [])
        no_error
        unread
        chunks
      ≡ finished r)
read_some_ends_example =
    read_some_ends reference reference-IsDocumented true schannel schannel-DecryptsInPlace
      schannel-RecordsFit layer layer-IsStream 65540 handle (2 ∷ []) no_error unread chunks
      unread-IsValid (omega arith)

abbrev pub read_of : Run (ReadSome World) → ReadSome World
read_of (finished r) = r
read_of aborted = record {
  error = no_error;
  count = 0;
  delivered = [];
  decrypt = unread;
  world = chunks;
}
read_of unfinished = record {
  error = no_error;
  count = 0;
  delivered = [];
  decrypt = unread;
  world = chunks;
}

abbrev two_read : ReadSome World
two_read =
    read_of (read_some schannel reference layer true 4 handle (2 ∷ []) no_error unread chunks)

read_some_counts_example : Counts (2 ∷ []) two_read.count two_read.delivered
unfolding read_some handle_decrypted decrypt deliver keep_extra get fill Decrypt.size_read
read_some_counts_example =
    read_some_counts reference reference-IsDocumented true schannel schannel-AlwaysHasData layer 4
      handle (2 ∷ []) no_error unread chunks two_read refl

-- The bytes to come are one record.
one_record : Ahead protocol unread chunks (10 ∷ 11 ∷ 12 ∷ [])
one_record =
    one_more {k' = tt} {rest = []} {first = 10 ∷ 11 ∷ 12 ∷ []} {others = []} refl
      (no_more refl refl) refl

read_some-Conserves_example :
    Conserves protocol unread (10 ∷ 11 ∷ 12 ∷ []) two_read.delivered two_read.decrypt two_read.world
unfolding read_some handle_decrypted decrypt deliver keep_extra get fill Decrypt.size_read
read_some-Conserves_example =
    read_some-Conserves schannel layer protocol schannel-DecryptsInPlace layer-IsStream reference
      reference-IsDocumented true 4 handle (2 ∷ []) no_error unread chunks (10 ∷ 11 ∷ 12 ∷ [])
      two_read unread-IsValid one_record refl refl

two_delivered : two_read.delivered ≡ 10 ∷ 11 ∷ []
unfolding read_some handle_decrypted decrypt deliver keep_extra get fill Decrypt.size_read
two_delivered = refl

async_read_same_example :
    async_read schannel reference true handle (2 ∷ []) layer 5 unread chunks ≡ finished two_read
unfolding read_some handle_decrypted decrypt deliver keep_extra get fill Decrypt.size_read
async_read_same_example =
    async_read_same schannel reference true handle (2 ∷ []) layer layer-ReportsCleanly 4 unread
      chunks two_read refl

fresh-IsSized : IsSized new_encrypt_buffers
unfolding new_encrypt_buffers
fresh-IsSized = record { no_wrap = omega arith; sized = λ ne. absurd (ne refl) }

-- Five bytes in two buffers, of which a message takes four.
abbrev five : List Bytes
five = (1 ∷ 2 ∷ []) ∷ (3 ∷ 4 ∷ 5 ∷ []) ∷ []

prepare-IsLaidOut_example :
    let p = prepare schannel reference handle five new_encrypt_buffers chunks in
    IsLaidOut five p.size_consumed p.buffers
    × IsSized p.buffers
    × (new_encrypt_buffers.message_size ≢ 0 → p.world ≡ chunks)
unfolding prepare new_encrypt_buffers
prepare-IsLaidOut_example =
    prepare-IsLaidOut reference reference-IsDocumented schannel schannel-ReportsSizes handle five
      new_encrypt_buffers chunks fresh-IsSized refl

write_some_sends_example :
    let out = write_some schannel reference layer handle five no_error new_encrypt_buffers chunks in
    let p = prepare schannel reference handle five new_encrypt_buffers chunks in
    IsLaidOut five out.count p.buffers
    × (sec_e_ok ≡ sec_e_ok)
    × (out.world
        ≡ (layer.write (concat (const_buffers p.buffers.message p.buffers.buffers)) p.world).world)
    × IsSized out.encrypt
unfolding write_some encrypt prepare new_encrypt_buffers
write_some_sends_example =
    write_some_sends reference reference-IsDocumented schannel schannel-ReportsSizes layer handle
      five new_encrypt_buffers chunks fresh-IsSized refl

async_write_same_example :
    let out = write_some schannel reference layer handle five no_error new_encrypt_buffers chunks in
    let encrypted = encrypt schannel reference handle five no_error new_encrypt_buffers chunks in
    async_write_some schannel reference handle five layer 2 new_encrypt_buffers chunks
    ≡ finished
        (record out { count = if failed encrypted.error then 0 else encrypted.size_encrypted })
async_write_same_example =
    async_write_same schannel reference handle five layer zero new_encrypt_buffers chunks

abbrev open_stream : SspiShutdown
open_stream = record { buffer_ = empty_buffer }

-- A package that gives the closing token.
abbrev closing : Schannel World
closing = record schannel {
  initialize_security_context = λ args w. record {
    status = sec_e_ok;
    new_context = handle;
    input = record { b0 = sspi_buffer 0; b1 = sspi_buffer 0 };
    output = token;
    world = w;
  };
}

async_shutdown_twice_example :
    let first = start_shutdown closing handle handle open_stream chunks in
    let sent = layer.write (asio_buffer first.shutdown.buffer_) first.world in
    let second = start_shutdown closing handle first.ctxt_handle first.shutdown sent.world in
    async_shutdown closing true handle layer 2 open_stream handle chunks
    ≡ (elim (shutdown_written closing true sent.size second.shutdown second.world)
        as (λ _. Run (Closed World)) [
          | none ↦ aborted
          | some (s', w') ↦ finished (record {
            error = no_error;
            shutdown = s';
            ctxt_handle = second.ctxt_handle;
            world = w';
          })
        ])
unfolding start_shutdown
async_shutdown_twice_example =
    async_shutdown_twice closing true handle layer 0 open_stream handle chunks refl refl

-- The package, with no data buffer for an empty record.
abbrev fickle : Schannel World
fickle = record schannel {
  decrypt_message = λ h s a w.
      let r = schannel.decrypt_message h s a w in
      record r {
        buffers = record r.buffers { b1 = if a 0 == 0 then sspi_buffer 0 else r.buffers.b1 };
      };
}

-- A record of one byte arrives, and then an empty one.
abbrev one_and_empty : World
one_and_empty = record { freed = []; incoming = (1 ∷ 10 ∷ []) ∷ (0 ∷ []) ∷ []; sent = [] }

abbrev with_byte : ReadSome World
with_byte =
    read_of (read_some fickle reference layer true 4 handle (2 ∷ []) no_error unread one_and_empty)

abbrev with_nothing : ReadSome World
with_nothing = read_of (
    read_some fickle reference layer true 4 handle (2 ∷ []) no_error with_byte.decrypt
      with_byte.world)

read_some_repeats_example :
    CountsOr with_byte.count (2 ∷ []) with_nothing.count with_nothing.delivered
unfolding read_some handle_decrypted decrypt deliver keep_extra get fill Decrypt.size_read
read_some_repeats_example =
    read_some_repeats reference reference-IsDocumented true fickle layer 4 4 handle (2 ∷ [])
      (2 ∷ []) no_error no_error unread one_and_empty with_byte.world with_byte with_nothing refl
      refl refl

-- The second read reports a byte, and has none.
byte_repeated : (with_nothing.count ≡ 1) × (with_nothing.delivered ≡ [])
unfolding read_some handle_decrypted decrypt deliver keep_extra get fill Decrypt.size_read
byte_repeated = (refl, refl)
