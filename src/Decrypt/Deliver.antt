-- ===== src/Decrypt/Deliver.antt =====
-- The two halves of sspi_decrypt's work on a decrypted record: handing out the plaintext and keeping
-- what follows the record.
use boost_windows_tls.Common.{
  Array, slice-memmove, ◌==◌, if◌then◌else◌, ℕ, ◌+◌, ◌-◌, ◌≤◌, ◌≡◌, refl, sym, ap, ◌∙◌, min, Bool,
  true, ltb, Bool-cases, inl, inr, some, arith, List, [], ◌∷◌, ◌++◌, append-nil, Bytes, length,
  take, slice, length-take, length-slice, slice-take-min, slice_split, take_all,
}
use boost_windows_tls.Windows.{inside, deref, shift, secbuffer_data, secbuffer_extra}
use boost_windows_tls.Asio.{Asio, IsDocumented, sum}
use boost_windows_tls.Buffers.{Sequence4}
use boost_windows_tls.DecryptedData.{empty, available, fill}
use boost_windows_tls.DecryptedData.Laws.{buffer_copy_one, available-fill}
use boost_windows_tls.Schannel.{MessageResult, Handle, Schannel}
use boost_windows_tls.Decrypt.{
  keep_extra, sec_e_incomplete_message, SspiDecrypt, buffer_size, deliver,
}

-- The bytes of the fourth buffer, if it is marked as extra.
abbrev pub extra_bytes : Sequence4 → Array → Bytes
extra_bytes s a =
    if s.b3.buffer_type == secbuffer_extra then deref a s.b3.pv_buffer s.b3.cb_buffer else []

module _ {World : Type 0} where
  -- DecryptMessage works in place, as documented: the plaintext lies in the record, and what follows
  -- the record is the tail of the input.
  pub record DecryptsInPlace (sspi : Schannel World) : Type 0 where
    pub front :
        (h : Handle) (s : Sequence4) (a : ℕ → ℕ) (w : World)
        → (sspi.decrypt_message h s a w).buffers.b0.pv_buffer ≡ s.b0.pv_buffer
    pub plain_inside :
        (h : Handle) (s : Sequence4) (a : ℕ → ℕ) (w : World)
        → (sspi.decrypt_message h s a w).buffers.b1.buffer_type ≡ secbuffer_data
        → (offset : ℕ) × ((sspi.decrypt_message h s a w).buffers.b1.pv_buffer ≡ inside offset)
          × (offset + (sspi.decrypt_message h s a w).buffers.b1.cb_buffer ≤ s.b0.cb_buffer)
    pub extra_inside :
        (h : Handle) (s : Sequence4) (a : ℕ → ℕ) (w : World)
        → (sspi.decrypt_message h s a w).buffers.b3.buffer_type ≡ secbuffer_extra
        → (offset : ℕ) × ((sspi.decrypt_message h s a w).buffers.b3.pv_buffer ≡ inside offset)
          × (offset + (sspi.decrypt_message h s a w).buffers.b3.cb_buffer ≡ s.b0.cb_buffer)
    pub untouched :
        (h : Handle) (s : Sequence4) (a : ℕ → ℕ) (w : World)
        → (sspi.decrypt_message h s a w).status ≡ sec_e_incomplete_message
        → (sspi.decrypt_message h s a w).memory ≡ a

  -- The decrypted bytes, and the received bytes behind the record.
  abbrev pub plaintext : MessageResult World → Bytes
  plaintext r = deref r.memory r.buffers.b1.pv_buffer r.buffers.b1.cb_buffer

  abbrev pub remainder : MessageResult World → Bytes
  remainder r = extra_bytes r.buffers r.memory

-- The received bytes that wait to be decrypted.
abbrev pub received : SspiDecrypt → Bytes
received d = slice d.encrypted_data 0 d.buffers.b0.cb_buffer

-- The first buffer starts at the front of the array and does not pass its end.
pub record IsValid (d : SspiDecrypt) : Type 0 where
  pub fits : d.buffers.b0.cb_buffer ≤ buffer_size
  pub at_front : d.buffers.b0.pv_buffer ≡ inside 0

-- What `deliver` does with decrypted bytes.
pub record Delivers (d : SspiDecrypt) (plain : Bytes) (d' : SspiDecrypt) (copied : Bytes)
    : Type 0 where
  pub all_kept : copied ++ available d'.decrypted_data ≡ plain
  pub counted : d'.size_decrypted ≡ length copied
  pub same_buffers : d'.buffers ≡ d.buffers
  pub same_data : d'.encrypted_data ≡ d.encrypted_data

pub keep_extra-decrypted : (d : SspiDecrypt) → (keep_extra d).decrypted_data ≡ d.decrypted_data
unfolding keep_extra
keep_extra-decrypted d = ground arith

pub keep_extra-size : (d : SspiDecrypt) → (keep_extra d).size_decrypted ≡ d.size_decrypted
unfolding keep_extra
keep_extra-size d = ground arith

pub keep_extra-received :
    (d : SspiDecrypt)
    → (d.buffers.b3.buffer_type ≡ secbuffer_extra
        → (offset : ℕ) × (d.buffers.b3.pv_buffer ≡ inside offset))
    → received (keep_extra d) ≡ extra_bytes d.buffers d.encrypted_data
unfolding keep_extra
keep_extra-received d h = elim (Bool-cases (d.buffers.b3.buffer_type == secbuffer_extra)) [
  | inl extra ↦
      let (offset, p) = h (ground arith) in
      rw extra (rw p (slice-memmove d.encrypted_data 0 offset d.buffers.b3.cb_buffer))
  | inr alone ↦ rw alone
]

pub keep_extra-IsValid :
    (d : SspiDecrypt)
    → d.buffers.b0.pv_buffer ≡ inside 0
    → (d.buffers.b3.buffer_type ≡ secbuffer_extra → d.buffers.b3.cb_buffer ≤ buffer_size)
    → IsValid (keep_extra d)
unfolding keep_extra
keep_extra-IsValid d p h = ground arith

module _ (net : Asio) (laws : IsDocumented net) (debug : Bool) where
  pub available_of_empty :
      (d : SspiDecrypt) → empty d.decrypted_data ≡ true → available d.decrypted_data ≡ []
  available_of_empty d e = let z : d.decrypted_data.available_data.size ≡ 0 = ground arith in rw z

  pub deliver-Delivers :
      (sizes : List ℕ) (d : SspiDecrypt) (offset : ℕ)
      → empty d.decrypted_data ≡ true
      → d.buffers.b1.buffer_type ≡ secbuffer_data
      → d.buffers.b1.pv_buffer ≡ inside offset
      → d.buffers.b1.cb_buffer ≤ buffer_size
      → (d' : SspiDecrypt) × (copied : Bytes) × (deliver net debug sizes d ≡ some (d', copied))
        × Delivers d (slice d.encrypted_data offset d.buffers.b1.cb_buffer) d' copied
  unfolding deliver
  deliver-Delivers sizes d offset e t p h =
      let n = d.buffers.b1.cb_buffer in
      let plain = slice d.encrypted_data offset n in
      let c = buffer_copy_one net laws sizes plain in
      let copied = take (sum sizes) plain in
      let size = length copied in
      let len : size ≡ min (sum sizes) n =
        length-take (sum sizes) plain
        ∙ ap (min (sum sizes)) (length-slice d.encrypted_data offset n) in
      let c' : net.buffer_copy sizes (deref d.encrypted_data d.buffers.b1.pv_buffer n ∷ [])
          ≡ copied =
        rw p c in
      let cut = slice-take-min d.encrypted_data offset n (sum sizes) in
      let cut' : copied ≡ slice d.encrypted_data offset size =
        cut ∙ ap (slice d.encrypted_data offset) (sym len) in
      elim (Bool-cases (ltb size n)) [
        | inl more ↦
            let rest = slice d.encrypted_data (offset + size) (n - size) in
            let (kept, filled, holds) =
              available-fill net laws debug buffer_size (rest ∷ []) d.decrypted_data e
                (rw (append-nil, length-slice) (omega arith)) in
            (
              record d { size_decrypted = size; decrypted_data = kept },
              copied,
              (let filled' : fill net debug buffer_size
                        (deref d.encrypted_data (shift d.buffers.b1.pv_buffer size) (n - size) ∷ [])
                        d.decrypted_data
                      ≡ some kept =
                    rw p filled in
                  ground (arith, c', filled')),
              record {
                all_kept =
                    ap (◌++◌ copied) (holds ∙ append-nil rest)
                    ∙ ap (λ b. b ++ rest) cut'
                    ∙ slice_split d.encrypted_data offset size n (omega arith);
                counted = refl;
                same_buffers = refl;
                same_data = refl;
              },
            )
        | inr whole ↦ (
          record d { size_decrypted = size },
          copied,
          ground (arith, c'),
          record {
            all_kept =
                ap (◌++◌ copied) (available_of_empty d e)
                ∙ append-nil copied
                ∙ take_all (sum sizes) plain
                    (ground (arith, length-slice d.encrypted_data offset n));
            counted = refl;
            same_buffers = refl;
            same_data = refl;
          },
        )
      ]

  -- `deliver` always returns, and leaves the buffers alone.
  pub deliver_total :
      (sizes : List ℕ) (d : SspiDecrypt)
      → empty d.decrypted_data ≡ true
      → (d.buffers.b1.buffer_type ≡ secbuffer_data
          → (offset : ℕ) × (d.buffers.b1.pv_buffer ≡ inside offset)
            × (d.buffers.b1.cb_buffer ≤ buffer_size))
      → (d' : SspiDecrypt) × (copied : Bytes) × (deliver net debug sizes d ≡ some (d', copied))
        × (d'.buffers ≡ d.buffers)
  unfolding deliver
  deliver_total sizes d e h = elim (Bool-cases (d.buffers.b1.buffer_type == secbuffer_data)) [
    | inl typed ↦
        let (offset, p, within) = h (ground arith) in
        let (d', copied, eq, out) = deliver-Delivers sizes d offset e (ground arith) p within in
        (d', copied, eq, out.same_buffers)
    | inr other ↦ (d, [], rw other, refl)
  ]
