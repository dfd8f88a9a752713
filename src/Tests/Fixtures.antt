-- ===== src/Tests/Fixtures.antt =====
-- A small security package, a next layer that plays back chunks, and their laws. A record of the
-- package is a length byte and as many bytes; a handshake message has three bytes.
use boost_windows_tls.Common.{
  ℕ, ◌+◌, ◌-◌, ◌%◌, ◌≤◌, ◌<◌, ◌≡◌, refl, Bool, true, false, ltb, ◌==◌, if◌then◌else◌, arith, none,
  some, List, [], ◌∷◌, Bytes, Array, length, take, drop, length-take,
}
use boost_windows_tls.Windows.{
  null, inside, external, sec_e_ok, sec_i_continue_needed, sec_e_incomplete_message,
  secbuffer_empty, secbuffer_data, secbuffer_token, secbuffer_extra,
}
use boost_windows_tls.ErrorCode.{ErrorCode, no_error, foreign, failed}
use boost_windows_tls.Buffers.{SspiBuffer, Sequence2, Sequence4, sspi_buffer}
use boost_windows_tls.Schannel.{Handle, Schannel, MessageResult, ContextResult, InitializeArgs}
use boost_windows_tls.NextLayer.{NextLayer, ReadResult, IsStream}
use boost_windows_tls.Context.{CertApi}
use boost_windows_tls.Context.Verification.{FailsWithCode}
use boost_windows_tls.Decrypt.Deliver.{DecryptsInPlace}
use boost_windows_tls.Encrypt.Layout.{ReportsSizes}
use boost_windows_tls.Handshake.{HandshakeType, client, server, Session, call_package}
use boost_windows_tls.Handshake.Steps.{TakesInput}
use boost_windows_tls.Handshake.Tokens.{FreeLog}
use boost_windows_tls.Stream.Reading.{RecordsFit}
use boost_windows_tls.Stream.Counting.{AlwaysHasData}
use boost_windows_tls.Async.ReadLaws.{ReportsCleanly}
use boost_windows_tls.Async.HandshakeLaws.{ClearsErrors}

-- What was freed, what is still to arrive, and what was sent.
pub record World : Type 0 where
  pub freed : List ℕ
  pub incoming : List Bytes
  pub sent : List Bytes

abbrev pub handle : Handle
handle = record { lower = 1; upper = 1 }

abbrev pub token : SspiBuffer
token = record {
  cb_buffer = 2;
  buffer_type = secbuffer_token;
  pv_buffer = external (record { address = 7; bytes = 21 ∷ 22 ∷ [] });
}

abbrev pub record_size : Array → ℕ
record_size a = a 0 % 256 + 1

abbrev pub decrypt_one : Handle → Sequence4 → Array → World → MessageResult World
decrypt_one h s a w =
    let n = record_size a in
    let cb = s.b0.cb_buffer in
    if ltb cb n
    then record {
      status = sec_e_incomplete_message;
      buffers = record { b0 = s.b0; b1 = sspi_buffer 0; b2 = sspi_buffer 0; b3 = sspi_buffer 0 };
      memory = a;
      world = w;
    }
    else record {
      status = sec_e_ok;
      buffers = record {
        b0 = s.b0;
        b1 = record { cb_buffer = n - 1; buffer_type = secbuffer_data; pv_buffer = inside 1 };
        b2 = sspi_buffer 0;
        b3 =
            if ltb n cb
            then record { cb_buffer = cb - n; buffer_type = secbuffer_extra; pv_buffer = inside n }
            else sspi_buffer 0;
      };
      memory = a;
      world = w;
    }

abbrev secbuffer_missing : ℕ
secbuffer_missing = 4

-- The answer to received handshake bytes: all after the third are spare, and as many as there are not
-- are missing.
abbrev pub answer_input : Bool → Sequence2 → World → ContextResult World
answer_input last_token s w = record {
  status = if ltb s.b0.cb_buffer 3 then sec_e_incomplete_message else sec_e_ok;
  new_context = handle;
  input = record {
    b0 = s.b0;
    b1 = record {
      cb_buffer = if ltb s.b0.cb_buffer 3 then 3 - s.b0.cb_buffer else s.b0.cb_buffer - 3;
      buffer_type =
          if ltb s.b0.cb_buffer 3
          then secbuffer_missing
          else (if ltb 3 s.b0.cb_buffer then secbuffer_extra else secbuffer_empty);
      pv_buffer = null;
    };
  };
  output = if last_token then token else sspi_buffer secbuffer_token;
  world = w;
}

abbrev pub initialize : Bool → InitializeArgs → World → ContextResult World
initialize last_token args w = elim args.input [
  | none ↦ record {
    status = sec_i_continue_needed;
    new_context = handle;
    input = record { b0 = sspi_buffer 0; b1 = sspi_buffer 0 };
    output = token;
    world = w;
  }
  | some input ↦ answer_input last_token input.buffers w
]

-- The package; the flag says whether it finishes a handshake with a token to be sent.
abbrev pub package_of : Bool → Schannel World
package_of last_token = record {
  acquire_credentials_handle = λ c w. record { status = sec_e_ok; credential = handle; world = w };
  initialize_security_context = initialize last_token;
  accept_security_context = λ args w. answer_input last_token args.input.buffers w;
  decrypt_message = decrypt_one;
  encrypt_message = λ h s a w. record { status = sec_e_ok; buffers = s; memory = a; world = w };
  query_stream_sizes = λ h w. record {
    status = sec_e_ok;
    value = record { cb_header = 1; cb_trailer = 2; cb_maximum_message = 4 };
    world = w;
  };
  query_remote_cert = λ h w. record { status = sec_e_ok; value = 9; world = w };
  apply_control_token = λ h b w. (sec_e_ok, w);
  free_context_buffer = λ a w. record w { freed = a ∷ w.freed };
  delete_security_context = λ h w. w;
  free_credentials_handle = λ h w. w;
}

abbrev pub schannel : Schannel World
schannel = package_of false

pub schannel-DecryptsInPlace : DecryptsInPlace schannel
schannel-DecryptsInPlace = record {
  front = λ h s a w. ground arith;
  plain_inside = λ h s a w typed. (1, ground arith, ground arith);
  extra_inside = λ h s a w typed. (record_size a, ground arith, ground arith);
  untouched = λ h s a w e. ground arith;
}

pub schannel-RecordsFit : RecordsFit schannel
schannel-RecordsFit = record { complete = λ h s a w e. ground arith }

pub schannel-AlwaysHasData : AlwaysHasData schannel
schannel-AlwaysHasData = record { typed = λ h s a w e. ground arith }

pub schannel-ReportsSizes : ReportsSizes schannel
schannel-ReportsSizes = record { fit = λ h w. omega arith }

same_size :
    (last_token : Bool) (type : HandshakeType) (s : Session World)
    → (call_package (package_of last_token) type s).input.b0.cb_buffer
      ≡ s.handshake.input_buffers.b0.cb_buffer
unfolding call_package
same_size last_token client s = refl
same_size last_token server s = refl

extra_within :
    (last_token : Bool) (type : HandshakeType) (s : Session World)
    → (call_package (package_of last_token) type s).input.b1.buffer_type ≡ secbuffer_extra
    → (call_package (package_of last_token) type s).input.b1.cb_buffer
      ≤ s.handshake.input_buffers.b0.cb_buffer
unfolding call_package
extra_within last_token client s extra = ground arith
extra_within last_token server s extra = ground arith

pub schannel-TakesInput : (last_token : Bool) → TakesInput (package_of last_token)
schannel-TakesInput last_token = record {
  same_size = same_size last_token;
  extra_within = extra_within last_token;
}

abbrev pub schannel-FreeLog : FreeLog schannel
schannel-FreeLog = record { freed = λ w. w.freed; logs = λ a w. refl }

abbrev pub end_of_file : ErrorCode
end_of_file = record { value = 2; category = foreign 1 }

abbrev pub chunk : Bytes → World → ReadResult World
chunk [] w = record { error = end_of_file; bytes = []; world = w }
chunk (b ∷ bs) w = record { error = no_error; bytes = b ∷ bs; world = w }

-- What a read leaves of a chunk comes first at the next.
abbrev pub put_back : Bytes → List Bytes → List Bytes
put_back [] cs = cs
put_back (b ∷ bs) cs = (b ∷ bs) ∷ cs

abbrev pub read_chunk : ℕ → List Bytes → World → ReadResult World
read_chunk n [] w = record { error = end_of_file; bytes = []; world = w }
read_chunk n (c ∷ cs) w = chunk (take n c) (record w { incoming = put_back (drop n c) cs })

abbrev pub layer : NextLayer World
layer = record {
  read_some = λ n w. read_chunk n w.incoming w;
  write = λ bs w. record {
    error = no_error;
    size = length bs;
    world = record w { sent = bs ∷ w.sent };
  };
}

read_within : (n : ℕ) (cs : List Bytes) (w : World) → length (read_chunk n cs w).bytes ≤ n
read_within n [] w = omega arith
read_within n (c ∷ cs) w = ground (arith, length-take n c)

pub read_brings :
    (n : ℕ) (cs : List Bytes) (w : World)
    → failed (read_chunk n cs w).error ≡ false
    → 0 < length (read_chunk n cs w).bytes
read_brings n [] w h = cc
read_brings n (c ∷ cs) w h = ground arith

success_clears :
    (n : ℕ) (cs : List Bytes) (w : World)
    → failed (read_chunk n cs w).error ≡ false
    → (read_chunk n cs w).error ≡ no_error
success_clears n [] w h = cc
success_clears n (c ∷ cs) w h = ground arith

failure_is_empty :
    (n : ℕ) (cs : List Bytes) (w : World)
    → failed (read_chunk n cs w).error ≡ true
    → (read_chunk n cs w).bytes ≡ []
failure_is_empty n [] w h = refl
failure_is_empty n (c ∷ cs) w h = ground arith

pub layer-IsStream : IsStream layer
layer-IsStream = record {
  read_within = λ n w. read_within n w.incoming w;
  read_brings = λ n w room h. read_brings n w.incoming w h;
  write_all = λ bs w h. refl;
}

pub layer-ReportsCleanly : ReportsCleanly layer
layer-ReportsCleanly = record {
  success_clears = λ n w. success_clears n w.incoming w;
  failure_is_empty = λ n w. failure_is_empty n w.incoming w;
}

pub layer-ClearsErrors : ClearsErrors layer
layer-ClearsErrors = record {
  read_clears = λ n w. success_clears n w.incoming w;
  write_clears = λ bs w h. refl;
}

-- Certificate functions that find every chain good but that of the system for certificate 5.
abbrev pub certificates : CertApi World
certificates = record {
  open_store = λ w. (3, w);
  close_store = λ s w. w;
  add_certificate = λ s c w. (true, w);
  last_error = λ w. 6;
  create_chain_engine = λ s w. (true, 4, w);
  free_chain_engine = λ e w. w;
  get_chain = λ e c w. (true, c + e, w);
  free_chain = λ c w. w;
  verify_policy = λ c w. (true, if c == 5 then 8 else 0, w);
  duplicate = λ c w. (c, w);
  free_certificate = λ c w. w;
}

pub certificates-FailsWithCode : FailsWithCode certificates
certificates-FailsWithCode = record {
  engine_code = λ s w h. cc;
  chain_code = λ e c w h. cc;
  policy_code = λ c w h. cc;
}
