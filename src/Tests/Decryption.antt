-- ===== src/Tests/Decryption.antt =====
-- sspi_decrypt and decrypted_data_buffer at concrete inputs.
use boost_windows_tls.Common.{◌≡◌, ◌≢◌, refl, inr, true, arith, some, [], ◌∷◌, ◌++◌, length, store}
use boost_windows_tls.Windows.{inside, secbuffer_data, sec_e_ok}
use boost_windows_tls.Asio.{reference, reference-IsDocumented, buffer}
use boost_windows_tls.Buffers.{sspi_buffer}
use boost_windows_tls.DecryptedData.{DecryptedDataBuffer, available}
use boost_windows_tls.Decrypt.{
  SspiDecrypt, Stepped, data_needed, data_available, error, decrypt, buffer_size,
}
use boost_windows_tls.Decrypt.Deliver.{IsValid, received}
use boost_windows_tls.Decrypt.Validity.{decrypt-IsValid}
use boost_windows_tls.Decrypt.Records.{decrypt_opens_record, decrypt_waits, decrypt_hands_out}
use boost_windows_tls.Tests.Fixtures.{World, handle, schannel, schannel-DecryptsInPlace}

abbrev waiting_bytes : DecryptedDataBuffer
waiting_bytes = record {
  available_data = record { offset = 1; size = 3 };
  buffer_ = store (λ i. 0) 0 (7 ∷ 8 ∷ 9 ∷ 10 ∷ []);
}

abbrev no_bytes : DecryptedDataBuffer
no_bytes = record { available_data = buffer 0; buffer_ = λ i. 0 }

-- As in decrypted_data_buffer_test.cpp.
-- A record of three bytes, and the first byte of the next.
abbrev loaded : SspiDecrypt
loaded = record {
  size_decrypted = 0;
  input_buffer = buffer buffer_size;
  last_error = sec_e_ok;
  buffers = record {
    b0 = record { cb_buffer = 5; buffer_type = secbuffer_data; pv_buffer = inside 0 };
    b1 = sspi_buffer 0;
    b2 = sspi_buffer 0;
    b3 = sspi_buffer 0;
  };
  encrypted_data = store (λ i. 0) 0 (3 ∷ 10 ∷ 11 ∷ 12 ∷ 2 ∷ []);
  decrypted_data = no_bytes;
}

abbrev quiet : World
quiet = record { freed = []; incoming = []; sent = [] }

loaded-IsValid : IsValid loaded
loaded-IsValid = record { fits = omega arith; at_front = refl }

decrypt-IsValid_example :
    (s : Stepped World) × (decrypt schannel reference true handle (2 ∷ []) loaded quiet ≡ some s)
    × (s.state ≢ error → IsValid s.decrypt)
decrypt-IsValid_example =
    decrypt-IsValid reference reference-IsDocumented true schannel schannel-DecryptsInPlace handle
      (2 ∷ []) loaded quiet loaded-IsValid

decrypt_opens_record_example :
    (s : Stepped World) × (decrypt schannel reference true handle (2 ∷ []) loaded quiet ≡ some s)
    × (s.state ≡ data_available)
    × (s.delivered ++ available s.decrypt.decrypted_data ≡ 10 ∷ 11 ∷ 12 ∷ [])
    × (s.decrypt.size_decrypted ≡ length s.delivered)
    × (received s.decrypt ≡ 2 ∷ [])
decrypt_opens_record_example =
    decrypt_opens_record reference reference-IsDocumented true schannel schannel-DecryptsInPlace
      handle (2 ∷ []) loaded quiet loaded-IsValid refl (omega arith) refl refl

-- The first two bytes of a record of three.
abbrev partial : SspiDecrypt
partial = record loaded {
  buffers = record {
    b0 = record { cb_buffer = 2; buffer_type = secbuffer_data; pv_buffer = inside 0 };
    b1 = sspi_buffer 0;
    b2 = sspi_buffer 0;
    b3 = sspi_buffer 0;
  };
}

partial-IsValid : IsValid partial
partial-IsValid = record { fits = omega arith; at_front = refl }

decrypt_waits_example :
    (s : Stepped World) × (decrypt schannel reference true handle (2 ∷ []) partial quiet ≡ some s)
    × (s.state ≡ data_needed)
    × (s.delivered ≡ [])
    × (received s.decrypt ≡ 3 ∷ 10 ∷ [])
    × (s.decrypt.input_buffer.offset ≡ 2)
    × (s.decrypt.input_buffer.size ≡ 65534)
decrypt_waits_example =
    decrypt_waits reference reference-IsDocumented true schannel schannel-DecryptsInPlace handle
      (2 ∷ []) partial quiet partial-IsValid refl (inr refl)

abbrev left_over : SspiDecrypt
left_over = record loaded { decrypted_data = waiting_bytes }

decrypt_hands_out_example :
    (s : Stepped World) × (decrypt schannel reference true handle (2 ∷ []) left_over quiet ≡ some s)
    × (s.state ≡ data_available)
    × (s.delivered ≡ 8 ∷ 9 ∷ [])
    × (s.delivered ++ available s.decrypt.decrypted_data ≡ 8 ∷ 9 ∷ 10 ∷ [])
    × (s.decrypt.size_decrypted ≡ length s.delivered)
    × (received s.decrypt ≡ 3 ∷ 10 ∷ 11 ∷ 12 ∷ 2 ∷ [])
    × (s.world ≡ quiet)
decrypt_hands_out_example =
    decrypt_hands_out reference reference-IsDocumented true schannel schannel-DecryptsInPlace handle
      (2 ∷ []) left_over quiet refl
