-- ===== src/Shutdown.antt =====
-- detail/sspi_shutdown.hpp: the closing token.
use boost_windows_tls.Common.{ℕ, Bool, ◌==◌, ◌!=◌, if◌then◌else◌, Option, none, some}
use boost_windows_tls.Windows.{sec_e_ok, aborts}
use boost_windows_tls.ErrorCode.{ErrorCode, no_error, make_error_code}
use boost_windows_tls.Flags.{client_context_flags}
use boost_windows_tls.Buffers.{shutdown_buffers}
use boost_windows_tls.ContextBuffer.{ContextBuffer, empty_buffer, assign_temporary}
use boost_windows_tls.Schannel.{Handle, Schannel}

-- `sspi_shutdown`, by its field `buffer_`; the handles belong to sspi_stream.
pub record SspiShutdown : Type 0 where
  pub buffer_ : ContextBuffer

pub record ShutDown (World : Type 0) : Type 0 where
  pub error : ErrorCode
  pub shutdown : SspiShutdown
  pub ctxt_handle : Handle
  pub world : World

module _ {World : Type 0} (sspi : Schannel World) where
  -- `operator()`
  unfoldable pub start_shutdown : Handle → Handle → SspiShutdown → World → ShutDown World
  start_shutdown cred ctxt s w =
      let (sc, w') = sspi.apply_control_token ctxt shutdown_buffers w in
      let r =
        sspi.initialize_security_context
          (record {
            credential = cred;
            existing = some ctxt;
            target_name = none;
            context_req = client_context_flags;
            input = none;
            output = shutdown_buffers;
          })
          w' in
      let (held, freed) =
        assign_temporary s.buffer_
          (record { data_ = r.output.pv_buffer; size = r.output.cb_buffer }) in
      if sc != sec_e_ok
      then record { error = make_error_code sc; shutdown = s; ctxt_handle = ctxt; world = w' }
      else (if r.status != sec_e_ok
          then record {
            error = make_error_code r.status;
            shutdown = s;
            ctxt_handle = r.new_context;
            world = r.world;
          }
          else record {
            error = no_error;
            shutdown = record { buffer_ = held };
            ctxt_handle = r.new_context;
            world = sspi.free_context_buffer freed r.world;
          })

  -- `size_written`. `none`: the check stopped the program.
  unfoldable pub shutdown_written : Bool → ℕ → SspiShutdown → World → Option (SspiShutdown × World)
  shutdown_written debug size s w =
      let (held, freed) = assign_temporary s.buffer_ empty_buffer in
      if aborts debug (size == s.buffer_.size)
      then none
      else some (record { buffer_ = held }, sspi.free_context_buffer freed w)
