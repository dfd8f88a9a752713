-- ===== src/Stream/Plaintext.antt =====
-- The abstract view of what is still to be read from a stream: the bytes that wait in plain, and the
-- plaintexts of the records in the bytes that have been received or are to come.
use boost_windows_tls.Common.{ℕ, ◌≡◌, false, Option, none, some, [], ◌++◌, Bytes, Array, slice}
use boost_windows_tls.Windows.{sec_e_ok, sec_e_incomplete_message, secbuffer_data}
use boost_windows_tls.ErrorCode.{failed}
use boost_windows_tls.Buffers.{Sequence4}
use boost_windows_tls.Schannel.{Handle, Schannel}
use boost_windows_tls.NextLayer.{NextLayer}
use boost_windows_tls.Decrypt.Deliver.{plaintext, remainder, received, IsValid}
use boost_windows_tls.Decrypt.{SspiDecrypt}
use boost_windows_tls.DecryptedData.{available}

module _ {Keys : Type 0} (open_record : Keys → Bytes → Option (Bytes × Bytes × Keys)) where
  -- Bytes that are whole records up to some that are not yet one, with the plaintexts of the records.
  pub data Decodes : Keys → Bytes → Bytes → Type 0 where
    no_more :
        {k : Keys} {bs plain : Bytes} → open_record k bs ≡ none → plain ≡ [] → Decodes k bs plain
    one_more :
        {k k' : Keys} {bs rest first others plain : Bytes}
        → open_record k bs ≡ some (first, rest, k')
        → Decodes k' rest others
        → plain ≡ first ++ others
        → Decodes k bs plain

-- A package and a next layer that agree on the protocol: how a record is opened under the keys of the
-- moment, and which bytes are to come.
pub record Protocol {World : Type 0} (sspi : Schannel World) (layer : NextLayer World)
    : Type 1 where
  pub Keys : Type 0
  pub keys : World → Keys
  pub open_record : Keys → Bytes → Option (Bytes × Bytes × Keys)
  pub incoming : World → Bytes
  -- A record is opened in the same way whatever follows it.
  pub extends :
      (k k' : Keys) (bs more first rest : Bytes)
      → open_record k bs ≡ some (first, rest, k')
      → open_record k (bs ++ more) ≡ some (first, rest ++ more, k')
  -- DecryptMessage opens the first record, or changes no keys if that is incomplete.
  pub opened :
      (h : Handle) (s : Sequence4) (a : Array) (w : World)
      → let r = sspi.decrypt_message h s a w in
        r.status ≡ sec_e_ok
        → (r.buffers.b1.buffer_type ≡ secbuffer_data)
          × (open_record (keys w) (slice a 0 s.b0.cb_buffer)
              ≡ some (plaintext r, remainder r, keys r.world))
  pub waiting :
      (h : Handle) (s : Sequence4) (a : Array) (w : World)
      → let r = sspi.decrypt_message h s a w in
        r.status ≡ sec_e_incomplete_message → keys r.world ≡ keys w
  pub no_input :
      (h : Handle) (s : Sequence4) (a : Array) (w : World)
      → incoming (sspi.decrypt_message h s a w).world ≡ incoming w
  -- A read takes the bytes that it brings from those to come.
  pub reads :
      (n : ℕ) (w : World)
      → let r = layer.read_some n w in
        failed r.error ≡ false
        → (incoming w ≡ r.bytes ++ incoming r.world) × (keys r.world ≡ keys w)

module _ {World : Type 0} {sspi : Schannel World} {layer : NextLayer World}
    (protocol : Protocol sspi layer) where
  -- The plaintext of what has been received and is to come.
  abbrev pub Ahead : SspiDecrypt → World → Bytes → Type 0
  Ahead d w plain =
      Decodes protocol.open_record (protocol.keys w) (received d ++ protocol.incoming w) plain

  -- What is delivered, with what is left to read, is what was there to read before, and what has been
  -- received still fits the array.
  abbrev pub Conserves : SspiDecrypt → Bytes → Bytes → SspiDecrypt → World → Type 0
  Conserves d plain out d' w' =
      (plain' : Bytes) × Ahead d' w' plain'
      × (available d.decrypted_data ++ plain ≡ out ++ (available d'.decrypted_data ++ plain'))
      × IsValid d'
