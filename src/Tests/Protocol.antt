-- ===== src/Tests/Protocol.antt =====
-- The protocol of the small package: a record is a length byte and as many bytes.
use boost_windows_tls.Common.{
  ℕ, zero, suc, ◌+◌, ◌-◌, ◌%◌, ◌≤◌, ◌≡◌, refl, sym, ap, ap₂, ◌∙◌, arith, false, ltb, if◌then◌else◌,
  Option, none, some, List, [], ◌∷◌, ◌++◌, append_assoc, length-append, Bytes, Array, length, take,
  drop, slice, length-slice, slice-take, slice-drop, take-append-drop, Bool-cases, inl, inr,
}
use boost_windows_tls.Windows.{sec_e_ok, secbuffer_data}
use boost_windows_tls.ErrorCode.{failed}
use boost_windows_tls.Asio.{concat}
use boost_windows_tls.Buffers.{Sequence4}
use boost_windows_tls.Schannel.{Handle}
use boost_windows_tls.Decrypt.Deliver.{plaintext, remainder}
use boost_windows_tls.Stream.Plaintext.{Protocol}
use boost_windows_tls.Tests.Fixtures.{
  World, put_back, chunk, schannel, layer, read_chunk, decrypt_one, record_size,
}

abbrev pub open_record : Unit {0} → Bytes → Option (Bytes × Bytes × Unit {0})
open_record k [] = none
open_record k (b ∷ bs) =
    if ltb (length bs) (b % 256) then none else some (take (b % 256) bs, drop (b % 256) bs, tt)

take_within : (n : ℕ) (xs ys : Bytes) → n ≤ length xs → take n (xs ++ ys) ≡ take n xs
take_within zero xs ys h = refl
take_within (suc n) [] ys h = absurd (omega arith)
take_within (suc n) (x ∷ xs) ys h = ap (◌∷◌ x) (take_within n xs ys (omega arith))

drop_within : (n : ℕ) (xs ys : Bytes) → n ≤ length xs → drop n (xs ++ ys) ≡ drop n xs ++ ys
drop_within zero xs ys h = refl
drop_within (suc n) [] ys h = absurd (omega arith)
drop_within (suc n) (x ∷ xs) ys h = drop_within n xs ys (omega arith)

pub extends :
    (k k' : Unit {0}) (bs more first rest : Bytes)
    → open_record k bs ≡ some (first, rest, k')
    → open_record k (bs ++ more) ≡ some (first, rest ++ more, k')
extends k k' [] more first rest e = cc
extends k k' (b ∷ bs) more first rest e =
    let m = b % 256 in
    elim (Bool-cases (ltb (length bs) m)) [
      | inl short ↦ ground (arith, short)
      | inr whole ↦
          let fits : m ≤ length bs = ground (arith, whole) in
          ground (
            arith,
            whole,
            length-append bs more,
            take_within m bs more fits,
            drop_within m bs more fits,
          )
    ]

first_of :
    (a : Array) (cb : ℕ)
    → record_size a ≤ cb
    → open_record tt (slice a 0 cb)
      ≡ some (slice a 1 (a 0 % 256), slice a (record_size a) (cb - record_size a), tt)
first_of a zero h = absurd (omega arith)
first_of a (suc k) h =
    let m = a 0 % 256 in
    let fits : m ≤ k = omega arith in
    let whole : m + (k - m) ≡ k = omega arith in
    let behind : 1 + m ≡ m + 1 = omega arith in
    let left : suc k - (m + 1) ≡ k - m = omega arith in
    let dropped : drop m (slice a 1 k) ≡ slice a (m + 1) (suc k - (m + 1)) =
      ap (λ n. drop m (slice a 1 n)) (sym whole)
      ∙ slice-drop a 1 (k - m) m
      ∙ ap₂ (λ o n. slice a o n) behind (sym left) in
    ground (arith, length-slice a 1 k, slice-take a 1 k m fits, dropped)

pub opened :
    (h : Handle) (s : Sequence4) (a : Array) (w : World)
    → let r = decrypt_one h s a w in
      r.status ≡ sec_e_ok
      → (r.buffers.b1.buffer_type ≡ secbuffer_data)
        × (open_record tt (slice a 0 s.b0.cb_buffer) ≡ some (plaintext r, remainder r, tt))
opened h s a w ok =
    let cb = s.b0.cb_buffer in
    let m = a 0 % 256 in
    elim (Bool-cases (ltb cb (record_size a))) [
      | inl short ↦ ground (arith, short)
      | inr whole ↦
          let fits : record_size a ≤ cb = ground (arith, whole) in
          let first = first_of a cb fits in
          let back : m + 1 - 1 ≡ m = omega arith in
          elim (Bool-cases (ltb (record_size a) cb)) [
            | inl more ↦ ground (arith, whole, more, first, back)
            | inr none_left ↦
                let all : cb ≡ record_size a = ground (arith, none_left, fits) in
                let nothing : cb - record_size a ≡ 0 = omega arith in
                ground (arith, whole, none_left, first, back, nothing)
          ]
    ]

concat-put_back : (bs : Bytes) (cs : List Bytes) → concat (put_back bs cs) ≡ bs ++ concat cs
concat-put_back [] cs = refl
concat-put_back (b ∷ bs) cs = refl

chunk_lem :
    (bs : Bytes) (cs : List Bytes) (w : World)
    → failed (chunk bs (record w { incoming = cs })).error ≡ false
    → (chunk bs (record w { incoming = cs })).bytes
        ++ concat (chunk bs (record w { incoming = cs })).world.incoming
      ≡ bs ++ concat cs
chunk_lem [] cs w h = cc
chunk_lem (b ∷ bs) cs w h = refl

-- A read takes from the front of what is to come.
pub reads :
    (n : ℕ) (cs : List Bytes) (w : World)
    → failed (read_chunk n cs w).error ≡ false
    → concat cs ≡ (read_chunk n cs w).bytes ++ concat (read_chunk n cs w).world.incoming
reads n [] w h = cc
reads n (c ∷ cs) w h =
    let split : concat (c ∷ cs) ≡ take n c ++ concat (put_back (drop n c) cs) =
      ap (◌++ concat cs) (sym (take-append-drop n c))
      ∙ append_assoc (take n c) (drop n c) (concat cs)
      ∙ ap (take n c ++◌) (sym (concat-put_back (drop n c) cs)) in
    split ∙ sym (chunk_lem (take n c) (put_back (drop n c) cs) w h)

pub no_input :
    (h : Handle) (s : Sequence4) (a : Array) (w : World)
    → concat (decrypt_one h s a w).world.incoming ≡ concat w.incoming
no_input h s a w = ground arith

abbrev pub protocol : Protocol schannel layer
protocol = record {
  Keys = Unit {0};
  keys = λ w. tt;
  open_record = open_record;
  incoming = λ w. concat w.incoming;
  extends = extends;
  opened = opened;
  waiting = λ h s a w e. refl;
  no_input = no_input;
  reads = λ n w h. (reads n w.incoming w h, refl);
}
