-- ===== src/Encrypt/Layout.antt =====
-- Where encrypt_buffers puts a message, and what sspi_encrypt makes of the statuses.
use boost_windows_tls.Common.{
  ◌⊎◌, ℕ, ◌+◌, ◌≤◌, ◌<◌, ◌^◌, ◌≡◌, ◌≢◌, refl, sym, ap, ◌∙◌, min, ◌==◌, ◌!=◌, Bool-cases, inl, inr,
  arith, List, [], ◌∷◌, Bytes, length, take, slice, store, length-take, slice-store,
}
use boost_windows_tls.Windows.{inside, sec_e_ok, to_ulong}
use boost_windows_tls.ErrorCode.{ErrorCode, make_error_code}
use boost_windows_tls.Asio.{Asio, IsDocumented, sum, concat}
use boost_windows_tls.Buffers.{const_buffer}
use boost_windows_tls.Schannel.{Handle, Schannel, StreamSizes}
use boost_windows_tls.Encrypt.{EncryptBuffers, total, lay_out, prepare, encrypt}

abbrev pub total_of : StreamSizes → ℕ
total_of s = s.cb_header + s.cb_maximum_message + s.cb_trailer

-- Once the array has a size, it is the one that the stream sizes ask for.
pub record IsSized (e : EncryptBuffers) : Type 0 where
  pub no_wrap : total_of e.stream_sizes < 2 ^ 32
  pub sized : e.message_size ≢ 0 → e.message_size ≡ total_of e.stream_sizes

-- Header, data and trailer lie one behind the other within the array, and the data is the longest
-- prefix of the source that a message may hold.
pub record IsLaidOut (source : List Bytes) (consumed : ℕ) (e : EncryptBuffers) : Type 0 where
  pub count : consumed ≡ min (length (concat source)) e.stream_sizes.cb_maximum_message
  pub header_at : e.buffers.b0.pv_buffer ≡ inside 0
  pub header_size : e.buffers.b0.cb_buffer ≡ e.stream_sizes.cb_header
  pub data_at : e.buffers.b1.pv_buffer ≡ inside e.stream_sizes.cb_header
  pub data_size : e.buffers.b1.cb_buffer ≡ consumed
  pub data_bytes : const_buffer e.message e.buffers.b1 ≡ take consumed (concat source)
  pub trailer_at : e.buffers.b2.pv_buffer ≡ inside (e.stream_sizes.cb_header + consumed)
  pub trailer_size : e.buffers.b2.cb_buffer ≡ e.stream_sizes.cb_trailer
  pub inside_array :
      e.stream_sizes.cb_header + consumed + e.stream_sizes.cb_trailer ≤ e.message_size

-- The sizes that the security package reports fit a 32-bit integer together.
pub record ReportsSizes {World : Type 0} (sspi : Schannel World) : Type 0 where
  pub fit : (h : Handle) (w : World) → total_of (sspi.query_stream_sizes h w).value < 2 ^ 32

module _ (net : Asio) (laws : IsDocumented net) where
  lay_out-IsLaidOut :
      (source : List Bytes) (e : EncryptBuffers)
      → total_of e.stream_sizes < 2 ^ 32
      → e.message_size ≡ total_of e.stream_sizes
      → IsLaidOut source (lay_out net source e).0 (lay_out net source e).1
  unfolding lay_out
  lay_out-IsLaidOut source e small sized =
      let sizes = e.stream_sizes in
      let consumed = min (net.buffer_size source) sizes.cb_maximum_message in
      let copied = net.buffer_copy (consumed ∷ []) source in
      let n = laws.buffer_size_lem source in
      let fits : to_ulong consumed ≡ consumed = omega arith in
      let one : sum (consumed ∷ []) ≡ consumed = omega arith in
      let copy : copied ≡ take consumed (concat source) =
        laws.buffer_copy_lem (consumed ∷ []) source ∙ ap (λ k. take k (concat source)) one in
      let len : length copied ≡ consumed =
        ap length copy ∙ length-take consumed (concat source) ∙ omega (arith, n) in
      record {
        count = ap (λ k. min k sizes.cb_maximum_message) n;
        header_at = refl;
        header_size = refl;
        data_at = refl;
        data_size = fits;
        data_bytes =
            ap (slice (store e.message sizes.cb_header copied) sizes.cb_header) (fits ∙ sym len)
            ∙ slice-store e.message sizes.cb_header copied
            ∙ copy;
        trailer_at = refl;
        trailer_size = refl;
        inside_array = omega (arith, sized);
      }

  module _ {World : Type 0} (sspi : Schannel World) (reports : ReportsSizes sspi) where
    -- A message that could be prepared is laid out within its array, and the sizes stay consistent.
    -- They are asked for once only: an array that has a size leaves the world alone. The sizes are
    -- to be consistent before, and those that the package reports to fit 32 bits together.
    pub prepare-IsLaidOut :
        (ctxt : Handle) (source : List Bytes) (e : EncryptBuffers) (w : World)
        → IsSized e
        → let p = prepare sspi net ctxt source e w in
          p.status ≡ sec_e_ok
          → IsLaidOut source p.size_consumed p.buffers
            × IsSized p.buffers
            × (e.message_size ≢ 0 → p.world ≡ w)
    unfolding prepare lay_out
    prepare-IsLaidOut ctxt source e w v ok =
        let q = sspi.query_stream_sizes ctxt w in
        let sized : EncryptBuffers = record e {
          stream_sizes = q.value;
          message_size = total q.value;
          message = λ i. 0;
        } in
        let small = reports.fit ctxt w in
        let exact : total q.value ≡ total_of q.value = omega (arith, small) in
        elim (Bool-cases (e.message_size == 0)) [
          | inl unknown ↦ elim (Bool-cases (q.status != sec_e_ok)) [
            | inl failed ↦ absurd (ground arith)
            | inr asked ↦
                rw (unknown, asked)
                  (
                    lay_out-IsLaidOut source sized small exact,
                    record { no_wrap = small; sized = λ _. exact },
                    λ ne. absurd (ne (ground arith)),
                  )
          ]
          | inr known ↦ rw known (
            lay_out-IsLaidOut source e v.no_wrap (v.sized (ground arith)),
            record { no_wrap = v.no_wrap; sized = v.sized },
            λ _. refl,
          )
        ]

    -- A failing call of the security package is returned as a system error with no bytes consumed;
    -- otherwise the error is left as it was, the consumed size is that of the layout, and the
    -- buffers are those that EncryptMessage left.
    pub encrypt_outcome :
        (ctxt : Handle) (source : List Bytes) (ec : ErrorCode) (e : EncryptBuffers) (w : World)
        → let p = prepare sspi net ctxt source e w in
          let r = sspi.encrypt_message ctxt p.buffers.buffers p.buffers.message p.world in
          let out = encrypt sspi net ctxt source ec e w in
          ((p.status ≢ sec_e_ok)
            × (out.error ≡ make_error_code p.status)
            × (out.size_encrypted ≡ 0))
          ⊎ ((p.status ≡ sec_e_ok)
              × (r.status ≢ sec_e_ok)
              × (out.error ≡ make_error_code r.status)
              × (out.size_encrypted ≡ 0))
          ⊎ ((p.status ≡ sec_e_ok)
              × (r.status ≡ sec_e_ok)
              × (out.error ≡ ec)
              × (out.size_encrypted ≡ p.size_consumed)
              × (out.buffers.buffers ≡ r.buffers))
    unfolding encrypt
    encrypt_outcome ctxt source ec e w = ground arith
