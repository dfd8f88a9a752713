-- ===== src/Handshake.antt =====
-- detail/sspi_handshake.hpp and handshake_type.hpp: the handshake as a machine that asks its caller
-- to read or to write.
pub mod Steps
pub mod Cases
pub mod Tokens
pub mod Progress
use boost_windows_tls.Common.{
  ◌||◌, ℕ, ◌+◌, ◌-◌, Bool, true, false, not, ltb, ◌&&◌, ◌==◌, ◌!=◌, if◌then◌else◌, Option, none,
  some, List, [], ◌∷◌, Bytes, Array, length, memmove,
}
use boost_windows_tls.Windows.{
  Pointer, null, inside, aborts, add_ulong, sec_e_ok, sec_i_continue_needed,
  sec_e_incomplete_message, sec_i_incomplete_credentials, sec_i_renegotiate, secbuffer_empty,
  secbuffer_token, secbuffer_extra,
}
use boost_windows_tls.ErrorCode.{ErrorCode, make_error_code}
use boost_windows_tls.Asio.{Asio, MutableBuffer, buffer}
use boost_windows_tls.Flags.{client_context_flags, server_context_flags, enabled_protocols}
use boost_windows_tls.Buffers.{
  SspiBuffer, Sequence2, handshake_input_buffers, handshake_output_buffers,
}
use boost_windows_tls.ContextBuffer.{
  ContextBuffer, empty_buffer, is_null, is_empty, assign_temporary,
}
use boost_windows_tls.Schannel.{
  Handle, null_handle, is_set, CertContext, Credentials, TokenInput, Schannel, ContextResult,
}
use boost_windows_tls.Context.{CertApi, Context, verify_certificate}

-- `handshake_type`
pub data HandshakeType : Type 0 where
  client server : HandshakeType

-- `sspi_handshake::state`
pub data HandshakeState : Type 0 where
  data_needed data_available done error : HandshakeState

-- The size of `input_data_`.
abbrev pub input_size : ℕ
input_size = 0x10000

pub record SspiHandshake : Type 0 where
  pub last_error : ℕ
  pub handshake_type : HandshakeType
  pub input_data : Array
  pub out_buffer : ContextBuffer
  pub in_buffer : MutableBuffer
  pub input_buffers : Sequence2
  pub server_hostname : Option Bytes

-- What a call reads and writes: the handshake, the two handles of sspi_stream, and the world.
pub record Session (World : Type 0) : Type 0 where
  pub handshake : SspiHandshake
  pub ctxt_handle : Handle
  pub cred_handle : Handle
  pub world : World

-- What `operator()()` answers and leaves; `none`: an assertion stopped the program.
abbrev pub Answer : Type 0 → Type 0
Answer World = Option (HandshakeState × Session World)

-- The constructor; the array starts with whatever it held.
unfoldable pub new_handshake : Array → SspiHandshake
new_handshake a = record {
  last_error = sec_e_ok;
  handshake_type = client;
  input_data = a;
  out_buffer = empty_buffer;
  in_buffer = buffer input_size;
  input_buffers = record handshake_input_buffers {
    b0 = record { cb_buffer = 0; buffer_type = secbuffer_token; pv_buffer = inside 0 };
  };
  server_hostname = none;
}

abbrev secpkg_cred_inbound : ℕ
secpkg_cred_inbound = 1

abbrev secpkg_cred_outbound : ℕ
secpkg_cred_outbound = 2

abbrev schannel_cred_version : ℕ
schannel_cred_version = 4

abbrev sch_cred_manual_cred_validation : ℕ
sch_cred_manual_cred_validation = 8

abbrev usage : HandshakeType → ℕ
usage client = secpkg_cred_outbound
usage server = secpkg_cred_inbound

-- The certificates that a server presents.
abbrev certificates : HandshakeType → CertContext → List CertContext
certificates client cert = []
certificates server cert = if cert != 0 then cert ∷ [] else []

abbrev pub credentials : HandshakeType → Context → Credentials
credentials type ctx = record {
  usage = usage type;
  version = schannel_cred_version;
  enabled_protocols = enabled_protocols ctx.method;
  flags = sch_cred_manual_cred_validation;
  certificates = certificates type ctx.ctx_certs.server_cert;
}

-- `buffers[0].cbBuffer != 0 && buffers[0].pvBuffer != nullptr`
abbrev pub has_token : SspiBuffer → Bool
has_token b = (b.cb_buffer != 0) && not (is_null b.pv_buffer)

-- `set_server_hostname`. `none`: the conversion to wide characters did not take every byte.
unfoldable pub set_server_hostname :
    Bool → (Bytes → ℕ × Bytes) → Bytes → SspiHandshake → Option SspiHandshake
set_server_hostname debug mbstowcs hostname h =
    let (size_converted, wide) = mbstowcs hostname in
    if aborts debug (size_converted == length hostname)
    then none
    else some (record h { server_hostname = some wide })

-- `size_read`
unfoldable pub size_read : Asio → ℕ → SspiHandshake → SspiHandshake
size_read net size h =
    let cb = add_ulong h.input_buffers.b0.cb_buffer size in
    let first = h.input_buffers.b0 in
    record h {
      input_buffers = record h.input_buffers { b0 = record first { cb_buffer = cb } };
      in_buffer = net.advance (buffer input_size) cb;
    }

-- `last_error()`
abbrev pub last_error_code : SspiHandshake → ErrorCode
last_error_code h = make_error_code h.last_error

-- The second input buffer, emptied before each call of the security package.
abbrev pub cleared : Sequence2 → Sequence2
cleared s = record s {
  b1 = record { cb_buffer = 0; buffer_type = secbuffer_empty; pv_buffer = null };
}

abbrev set_first_size : ℕ → SspiHandshake → SspiHandshake
set_first_size n h =
    let first = h.input_buffers.b0 in
    record h { input_buffers = record h.input_buffers { b0 = record first { cb_buffer = n } } }

-- Moves the bytes that the security package has not used to the front. The source would read before
-- the array if the package claimed more of them than it was given; the difference stops at 0 here.
unfoldable pub reuse_extra : Asio → SspiHandshake → SspiHandshake
reuse_extra net h =
    let previous = h.input_buffers.b0.cb_buffer in
    let extra = h.input_buffers.b1.cb_buffer in
    let h' = set_first_size extra h in
    record h' {
      input_data = memmove h.input_data 0 (previous - extra) extra;
      in_buffer = net.advance (buffer input_size) extra;
    }

-- Starts the input afresh.
unfoldable pub reset_input : SspiHandshake → SspiHandshake
reset_input h = let h' = set_first_size 0 h in record h' { in_buffer = buffer input_size }

module _ {World : Type 0} (sspi : Schannel World) where
  -- `out_buffer_ = sspi_context_buffer{...}`
  abbrev pub hold_token : SspiBuffer → Session World → Session World
  hold_token b s =
      let h = s.handshake in
      let (held, freed) =
        assign_temporary h.out_buffer (record { data_ = b.pv_buffer; size = b.cb_buffer }) in
      record s {
        handshake = record h { out_buffer = held };
        world = sspi.free_context_buffer freed s.world;
      }

  -- The first token of a client.
  client_hello : Session World → Session World
  client_hello s =
      let h = s.handshake in
      let r =
        sspi.initialize_security_context
          (record {
            credential = s.cred_handle;
            existing = none;
            target_name = h.server_hostname;
            context_req = client_context_flags;
            input = none;
            output = handshake_output_buffers;
          })
          s.world in
      let s' = record s {
        handshake = record h { last_error = r.status };
        ctxt_handle = r.new_context;
        world = r.world;
      } in
      if has_token r.output then hold_token r.output s' else s'

  -- The switch over the type at the end of `operator()(handshake_type)`.
  begin : HandshakeType → Session World → Session World
  unfolding client_hello
  begin client s = client_hello s
  begin server s =
      let h = s.handshake in
      record s { handshake = record h { last_error = sec_i_continue_needed } }

  -- `operator()(handshake_type)`
  unfoldable pub start : Context → HandshakeType → Session World → Session World
  unfolding begin
  start ctx type s =
      let h = s.handshake in
      let r = sspi.acquire_credentials_handle (credentials type ctx) s.world in
      let s' = record s {
        handshake = record h { handshake_type = type; last_error = r.status };
        cred_handle = r.credential;
        world = r.world;
      } in
      if r.status != sec_e_ok then s' else begin type s'

  -- The call of the security package on the received bytes.
  unfoldable pub call_package : HandshakeType → Session World → ContextResult World
  call_package client s =
      sspi.initialize_security_context
        (record {
          credential = s.cred_handle;
          existing = some s.ctxt_handle;
          target_name = s.handshake.server_hostname;
          context_req = client_context_flags;
          input = some (record {
            buffers = cleared s.handshake.input_buffers;
            memory = s.handshake.input_data;
          });
          output = handshake_output_buffers;
        })
        s.world
  call_package server s =
      sspi.accept_security_context
        (record {
          credential = s.cred_handle;
          existing = if is_set s.ctxt_handle then some s.ctxt_handle else none;
          context_req = server_context_flags;
          input = record {
            buffers = cleared s.handshake.input_buffers;
            memory = s.handshake.input_data;
          };
          output = handshake_output_buffers;
        })
        s.world

  -- A client passes no place for a new context, a server its own handle.
  abbrev pub stored_context : HandshakeType → Session World → ContextResult World → Handle
  stored_context client s r = s.ctxt_handle
  stored_context server s r = r.new_context

  -- The session after the call.
  abbrev pub called : ContextResult World → Session World → Session World
  called r s =
      let h = s.handshake in
      record s {
        handshake = record h { last_error = r.status; input_buffers = r.input };
        ctxt_handle = stored_context h.handshake_type s r;
        world = r.world;
      }

  -- `size_written`
  unfoldable pub size_written : Bool → ℕ → Session World → Option (Session World)
  size_written debug size s =
      let h = s.handshake in
      let (held, freed) = assign_temporary h.out_buffer empty_buffer in
      if aborts debug (size == h.out_buffer.size)
      then none
      else some (record s {
        handshake = record h { out_buffer = held };
        world = sspi.free_context_buffer freed s.world;
      })

module _ {World : Type 0} (sspi : Schannel World) (net : Asio) (debug : Bool) (api : CertApi World)
    (ctx : Context) where
  -- Verification of the peer's certificate once the package reports success.
  unfoldable pub verify_peer : Session World → HandshakeState × Session World
  verify_peer s =
      let h = s.handshake in
      let q = sspi.query_remote_cert s.ctxt_handle s.world in
      let (status, w) = verify_certificate api q.value ctx q.world in
      let failed = record s { handshake = record h { last_error = q.status }; world = q.world } in
      let checked = record s {
        handshake = record h { last_error = status };
        world = api.free_certificate q.value w;
      } in
      if ctx.verify_server
      then (if q.status != sec_e_ok
          then (error, failed)
          else (if status != sec_e_ok then (error, checked) else (done, checked)))
      else (done, s)

  -- The last switch of `operator()`, over the status.
  unfoldable pub conclude : ℕ → Session World → Answer World
  unfolding verify_peer
  conclude status s =
      if status == sec_i_continue_needed
      then some (data_needed, s)
      else (if status == sec_e_ok
          then some (verify_peer s)
          else (if (status == sec_i_incomplete_credentials) && debug
              then none
              else (if ((status == sec_i_incomplete_credentials) || (status == sec_i_renegotiate))
                    && debug
                  then none
                  else some (error, s))))

  -- The part of `operator()` behind the call of the security package.
  unfoldable pub digest : ContextResult World → Session World → Answer World
  digest r s =
      let s' = called sspi r s in
      let extra = record s' { handshake = reuse_extra net s'.handshake } in
      let fresh = record s' { handshake = reset_input s'.handshake } in
      if r.input.b1.buffer_type == secbuffer_extra
      then (if aborts debug (ltb 0 extra.handshake.in_buffer.size)
          then none
          else some (data_needed, extra))
      else (if r.status == sec_e_incomplete_message
          then (if aborts debug (ltb 0 s'.handshake.in_buffer.size)
              then none
              else some (data_needed, s'))
          else (if has_token r.output
              then some (data_available, hold_token sspi r.output fresh)
              else conclude r.status fresh))

  -- `operator()()`
  unfoldable pub step : Session World → Answer World
  step s =
      let h = s.handshake in
      let r = call_package sspi h.handshake_type s in
      if (h.last_error != sec_i_continue_needed) && (h.last_error != sec_e_incomplete_message)
      then some (error, s)
      else (if not (is_empty h.out_buffer)
          then some (data_available, s)
          else (if h.input_buffers.b0.cb_buffer == 0 then some (data_needed, s) else digest r s))
