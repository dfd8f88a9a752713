-- ===== src/Common/Memory.antt =====
-- A byte array as a function from indices to bytes. Every size is kept beside it, so that bounds are
-- statements about numbers.
use Prim.Native.Nat.{ℕ, zero, suc, ◌+◌, ◌-◌, ◌≤◌, ◌<◌, min}
use mathlib.Core.Path.{◌≡◌, refl, ap, ap₂, sym, ◌∙◌}
use mathlib.Core.List.{List, [], ◌∷◌, ◌++◌}
use native.Mathlib.Omega.{arith}
use boost_windows_tls.Common.Tests.{◌==◌, if◌then◌else◌}
use boost_windows_tls.Common.Lists.{length, take, drop}

abbrev pub Bytes : Type 0
Bytes = List ℕ

abbrev pub Array : Type 0
Array = ℕ → ℕ

-- The `n` bytes from `offset` on.
abbrev pub slice : Array → ℕ → ℕ → Bytes
slice a offset zero = []
slice a offset (suc n) = a offset ∷ slice a (suc offset) n

-- Writes the bytes at `offset`.
abbrev pub store : Array → ℕ → Bytes → Array
store a offset [] i = a i
store a offset (b ∷ bs) i = let rest = store a (suc offset) bs i in if i == offset then b else rest

-- `memmove`: the source is read whole before the destination is written.
abbrev pub memmove : Array → ℕ → ℕ → ℕ → Array
memmove a to from n = store a to (slice a from n)

pub length-slice : (a : Array) (offset n : ℕ) → length (slice a offset n) ≡ n
length-slice a offset zero = refl
length-slice a offset (suc n) = ap suc (length-slice a (suc offset) n)

pub store_below :
    (a : Array) (offset : ℕ) (bs : Bytes) (i : ℕ) → i < offset → store a offset bs i ≡ a i
store_below a offset [] i h = refl
store_below a offset (b ∷ bs) i h = ground (arith, store_below a (suc offset) bs i)

pub slice-congr :
    (a b : Array) (offset n : ℕ)
    → ((i : ℕ) → offset ≤ i → i < offset + n → a i ≡ b i)
    → slice a offset n ≡ slice b offset n
slice-congr a b offset zero h = refl
slice-congr a b offset (suc n) h =
    ap₂ ◌∷◌ (h offset (omega arith) (omega arith))
      (slice-congr a b (suc offset) n (λ i p q. h i (omega arith) (omega arith)))

-- A slice below the written range is left alone.
pub slice-store_below :
    (a : Array) (from n offset : ℕ) (bs : Bytes)
    → from + n ≤ offset
    → slice (store a offset bs) from n ≡ slice a from n
slice-store_below a from n offset bs h =
    slice-congr (store a offset bs) a from n (λ i p q. store_below a offset bs i (omega arith))

-- What was written is read back.
pub slice-store :
    (a : Array) (offset : ℕ) (bs : Bytes) → slice (store a offset bs) offset (length bs) ≡ bs
slice-store a offset [] = refl
slice-store a offset (b ∷ bs) = ap₂ ◌∷◌ (ground arith) (
    slice-congr (store a offset (b ∷ bs)) (store a (suc offset) bs) (suc offset) (length bs)
      (λ i p q. ground arith)
    ∙ slice-store a (suc offset) bs)

pub slice-append :
    (a : Array) (offset m n : ℕ)
    → slice a offset (m + n) ≡ slice a offset m ++ slice a (offset + m) n
slice-append a offset zero n =
    let e : zero + n ≡ n = omega arith in let f : offset + zero ≡ offset = omega arith in rw (e, f)
slice-append a offset (suc m) n =
    let e : suc m + n ≡ suc (m + n) = omega arith in
    let f : offset + suc m ≡ suc offset + m = omega arith in
    rw (e, f) (ap (◌∷◌ (a offset)) (slice-append a (suc offset) m n))

pub slice_split :
    (a : Array) (offset m n : ℕ)
    → m ≤ n
    → slice a offset m ++ slice a (offset + m) (n - m) ≡ slice a offset n
slice_split a offset m n h =
    let e : n ≡ m + (n - m) = omega arith in
    sym (ap (slice a offset) e ∙ slice-append a offset m (n - m))

-- Bytes stored just behind a prefix extend it.
pub slice-store_end :
    (a : Array) (offset n : ℕ) (bs : Bytes)
    → slice (store a (offset + n) bs) offset (n + length bs) ≡ slice a offset n ++ bs
slice-store_end a offset n bs =
    rw (slice-append, slice-store_below a offset n (offset + n) bs (omega arith))
      (ap (◌++◌ (slice a offset n)) (slice-store a (offset + n) bs))

-- After a move the destination holds what the source held.
pub slice-memmove : (a : Array) (to from n : ℕ) → slice (memmove a to from n) to n ≡ slice a from n
slice-memmove a to from n = let e = slice-store a to (slice a from n) in rw length-slice at e

pub slice-take : (a : Array) (offset n m : ℕ) → m ≤ n → take m (slice a offset n) ≡ slice a offset m
slice-take a offset n zero h = refl
slice-take a offset zero (suc m) h = absurd (omega arith)
slice-take a offset (suc n) (suc m) h =
    ap (◌∷◌ (a offset)) (slice-take a (suc offset) n m (omega arith))

pub slice-take-min :
    (a : Array) (offset n m : ℕ) → take m (slice a offset n) ≡ slice a offset (min m n)
slice-take-min a offset n zero = let e : min 0 n ≡ 0 = omega arith in rw e
slice-take-min a offset zero (suc m) = let e : min (suc m) 0 ≡ 0 = omega arith in rw e
slice-take-min a offset (suc n) (suc m) =
    let e : min (suc m) (suc n) ≡ suc (min m n) = omega arith in
    rw e (ap (◌∷◌ (a offset)) (slice-take-min a (suc offset) n m))

pub slice-drop :
    (a : Array) (offset n m : ℕ) → drop m (slice a offset (m + n)) ≡ slice a (offset + m) n
slice-drop a offset n zero =
    let e : zero + n ≡ n = omega arith in let f : offset + zero ≡ offset = omega arith in rw (e, f)
slice-drop a offset n (suc m) =
    let e : suc m + n ≡ suc (m + n) = omega arith in
    let f : offset + suc m ≡ suc offset + m = omega arith in
    rw (e, f) (slice-drop a (suc offset) n m)
