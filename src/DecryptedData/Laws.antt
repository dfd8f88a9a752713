-- ===== src/DecryptedData/Laws.antt =====
-- What decrypted_data_buffer keeps and gives back.
use boost_windows_tls.Common.{
  ℕ, ◌≤◌, Bool, true, ◌≡◌, some, arith, List, [], ◌∷◌, ◌++◌, min, append-nil, Bytes, length, take,
  length-take, length-slice, slice-take-min, slice_split, store, slice-store, take_all, ap, ◌∙◌,
}
use boost_windows_tls.Asio.{Asio, buffer, IsDocumented, sum, concat}
use boost_windows_tls.DecryptedData.{DecryptedDataBuffer, empty, available, get, fill}

module _ (net : Asio) (laws : IsDocumented net) where
  -- A copy from one buffer.
  pub buffer_copy_one :
      (sizes : List ℕ) (b : Bytes) → net.buffer_copy sizes (b ∷ []) ≡ take (sum sizes) b
  buffer_copy_one sizes b =
      laws.buffer_copy_lem sizes (b ∷ []) ∙ ap (take (sum sizes)) (append-nil b)

  -- `get` hands out a prefix of the waiting bytes, as many as fit, and the rest still waits.
  pub get-available :
      (sizes : List ℕ) (d : DecryptedDataBuffer)
      → ((get net sizes d).0 ≡ take (sum sizes) (available d))
        × ((get net sizes d).0 ++ available (get net sizes d).1 ≡ available d)
  unfolding get
  get-available sizes d =
      let copied = buffer_copy_one sizes (available d) in
      let cut =
        slice-take-min d.buffer_ d.available_data.offset d.available_data.size (sum sizes) in
      let n = min (sum sizes) d.available_data.size in
      let len : length (take (sum sizes) (available d)) ≡ n =
        length-take (sum sizes) (available d)
        ∙ ap (min (sum sizes))
            (length-slice d.buffer_ d.available_data.offset d.available_data.size) in
      let fits : min n d.available_data.size ≡ n = omega arith in
      (
        copied,
        rw (copied, len, laws.advance_lem)
            (rw cut (
              rw fits (
                slice_split d.buffer_ d.available_data.offset n d.available_data.size
                  (omega arith)))),
      )

  -- After `fill` of a buffer with no waiting bytes, the bytes that wait are the source's, if they
  -- fit.
  pub available-fill :
      (debug : Bool) (n : ℕ) (source : List Bytes) (d : DecryptedDataBuffer)
      → empty d ≡ true
      → length (concat source) ≤ n
      → (d' : DecryptedDataBuffer) × (fill net debug n source d ≡ some d')
        × (available d' ≡ concat source)
  unfolding fill
  available-fill debug n source d e h =
      let c : net.buffer_copy (n ∷ []) source ≡ concat source =
        laws.buffer_copy_lem (n ∷ []) source
        ∙ take_all (sum (n ∷ [])) (concat source) (omega arith) in
      (
        record {
          available_data = buffer (length (concat source));
          buffer_ = store d.buffer_ 0 (concat source);
        },
        rw c (ground arith),
        slice-store d.buffer_ 0 (concat source),
      )
