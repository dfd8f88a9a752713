-- ===== src/Examples/Url/Matching.antt =====
-- The URL beside the regular expression: a match as a decomposition of the text.
use boost_windows_tls.Common.{
  ℕ, ◌≡◌, ◌≢◌, ◌⊎◌, refl, sym, ap, ◌∙◌, arith, Bool, true, false, ◌==◌, some, [], ◌∷◌, ◌++◌,
  append_assoc, Bytes, length, Bool-cases, Option-cases, inl, inr,
}
use mathlib.Core.List.{append_cancel_left}
use boost_windows_tls.Examples.Url.{
  groups, scheme, slash, colon, is_host, is_port, is_any, all, span, strip, skip_colon, Groups,
  regex_match,
}

-- What the regular expression says of a text and its groups.
pub record Matches (url : Bytes) (g : Groups) : Type 0 where
  pub separator : Bytes
  pub whole : url ≡ scheme ++ (g.first ++ (separator ++ (g.second ++ g.third)))
  pub first_some : g.first ≢ []
  pub first_of : all is_host g.first ≡ true
  pub separated : (separator ≡ []) ⊎ (separator ≡ colon ∷ [])
  pub second_of : all is_port g.second ≡ true
  -- A slash that is there or not, and then anything.
  pub third_of :
      (all is_any g.third ≡ true)
      ⊎ ((rest : Bytes) × (g.third ≡ slash ∷ rest) × (all is_any rest ≡ true))

strip-some : (ps bs rest : Bytes) → strip ps bs ≡ some rest → bs ≡ ps ++ rest
unfolding strip
strip-some [] bs rest e = ground arith
strip-some (p ∷ ps) [] rest e = absurd (ground arith)
strip-some (p ∷ ps) (b ∷ bs) rest e = ground (arith, strip-some ps bs rest)

strip-append : (ps rest : Bytes) → strip ps (ps ++ rest) ≡ some rest
unfolding strip
strip-append [] rest = refl
strip-append (p ∷ ps) rest = ground (arith, strip-append ps rest)

-- A span is split where it says.
span_whole : (f : ℕ → Bool) (bs : Bytes) → (span f bs).0 ++ (span f bs).1 ≡ bs
unfolding span
span_whole f [] = refl
span_whole f (c ∷ cs) = ground (arith, span_whole f cs)

span-all : (f : ℕ → Bool) (bs : Bytes) → all f (span f bs).0 ≡ true
unfolding span
span-all f [] = refl
span-all f (c ∷ cs) = ground (arith, span-all f cs)

-- A text that starts with no such character.
abbrev pub Stops : (ℕ → Bool) → Bytes → Type 0
Stops f [] = Unit {0}
Stops f (c ∷ cs) = f c ≡ false

span-Stops : (f : ℕ → Bool) (bs : Bytes) → Stops f (span f bs).1
unfolding span
span-Stops f [] = tt
span-Stops f (c ∷ cs) = elim (Bool-cases (f c)) [
  | inl more ↦ rw more (span-Stops f cs)
  | inr ends ↦ rw ends ends
]

-- Such a text behind such characters is found again.
pub span-append :
    (f : ℕ → Bool) (front back : Bytes)
    → all f front ≡ true
    → Stops f back
    → span f (front ++ back) ≡ (front, back)
unfolding span
span-append f [] [] a s = refl
span-append f [] (c ∷ cs) a s = rw s refl
span-append f (c ∷ front) back a s = ground (arith, span-append f front back)

all-append :
    (f : ℕ → Bool) (xs ys : Bytes) → all f xs ≡ true → all f ys ≡ true → all f (xs ++ ys) ≡ true
all-append f [] ys a b = b
all-append f (x ∷ xs) ys a b = ground (arith, all-append f xs ys)

all_host_port : (xs : Bytes) → all is_host xs ≡ true → all is_port xs ≡ true
all_host_port [] a = refl
all_host_port (x ∷ xs) a = ground (arith, all_host_port xs)

-- What a repetition of port characters leaves has no line terminator.
abbrev Clean : Bytes → Type 0
Clean bs = all is_any (span is_port bs).1 ≡ true

any-Clean : (bs : Bytes) → all is_any bs ≡ true → Clean bs
unfolding span
any-Clean [] a = refl
any-Clean (c ∷ cs) a = ground (arith, any-Clean cs)

append-Clean : (xs bs : Bytes) → all is_port xs ≡ true → all is_any bs ≡ true → Clean (xs ++ bs)
unfolding span
append-Clean [] bs p a = any-Clean bs a
append-Clean (x ∷ xs) bs p a = ground (arith, append-Clean xs bs)

tail-Clean : (c : ℕ) (cs : Bytes) → Clean (c ∷ cs) → Clean cs
unfolding span
tail-Clean c cs h = ground (arith, any-Clean cs)

span-Clean : (f : ℕ → Bool) (bs : Bytes) → Clean bs → Clean (span f bs).1
unfolding span
span-Clean f [] h = h
span-Clean f (c ∷ cs) h = elim (Bool-cases (f c)) [
  | inl more ↦ rw more (span-Clean f cs (tail-Clean c cs h))
  | inr ends ↦ rw ends h
]

skip_colon-Clean : (bs : Bytes) → Clean bs → Clean (skip_colon bs)
skip_colon-Clean [] h = h
skip_colon-Clean (c ∷ cs) h = elim (Bool-cases (c == colon)) [
  | inl skipped ↦ rw skipped (tail-Clean c cs h)
  | inr kept ↦ rw kept h
]

third_any :
    (third : Bytes)
    → ((all is_any third ≡ true)
        ⊎ ((rest : Bytes) × (third ≡ slash ∷ rest) × (all is_any rest ≡ true)))
    → all is_any third ≡ true
third_any third (inl a) = a
third_any third (inr (rest, e, a)) = rw e a

all_separator : (sep : Bytes) → (sep ≡ []) ⊎ (sep ≡ colon ∷ []) → all is_port sep ≡ true
all_separator sep (inl e) = rw e refl
all_separator sep (inr e) = rw e refl

-- The longest repetition is not empty if one is not.
span_some :
    (f : ℕ → Bool) (xs bs : Bytes)
    → xs ≢ []
    → all f xs ≡ true
    → (length (span f (xs ++ bs)).0 == 0) ≡ false
unfolding span
span_some f [] bs ne a = absurd (ne refl)
span_some f (x ∷ xs) bs ne a = ground arith

skip_colon_splits :
    (bs : Bytes) → (sep : Bytes) × (bs ≡ sep ++ skip_colon bs) × ((sep ≡ []) ⊎ (sep ≡ colon ∷ []))
skip_colon_splits [] = ([], refl, inl refl)
skip_colon_splits (c ∷ cs) = elim (Bool-cases (c == colon)) [
  | inl skipped ↦ (colon ∷ [], ground (arith, skipped), inr refl)
  | inr kept ↦ ([], ground (arith, kept), inl refl)
]

-- The groups that are found split the text, and each has the characters it may have.
groups_split :
    (rest : Bytes) (g : Groups)
    → groups rest ≡ some g
    → (g ≡ record {
      first = (span is_host rest).0;
      second = (span is_port (skip_colon (span is_host rest).1)).0;
      third = (span is_port (skip_colon (span is_host rest).1)).1;
    })
      × (g.first ≢ [])
      × (all is_any g.third ≡ true)
unfolding groups
groups_split rest g e = ground arith

groups_sound : (rest : Bytes) (g : Groups) → groups rest ≡ some g → Matches (scheme ++ rest) g
groups_sound rest g e =
    let (same, some_host, clean) = groups_split rest g e in
    let behind = (span is_host rest).1 in
    let (sep, split, kind) = skip_colon_splits behind in
    let second_whole = span_whole is_port (skip_colon behind) in
    record {
      separator = sep;
      whole = ap (scheme ++◌) (
          rw same (
            sym (span_whole is_host rest)
            ∙ ap ((span is_host rest).0 ++◌) (split ∙ ap (sep ++◌) (sym second_whole))));
      first_some = some_host;
      first_of = rw same (span-all is_host rest);
      separated = kind;
      second_of = rw same (span-all is_port (skip_colon behind));
      third_of = inl clean;
    }

regex_match_sound : (url : Bytes) (g : Groups) → regex_match url ≡ some g → Matches url g
unfolding regex_match
regex_match_sound url g e = elim (Option-cases (strip scheme url)) [
  | inl other ↦ absurd (ground (arith, other))
  | inr (rest, found) ↦
      rw (strip-some scheme url rest found) (groups_sound rest g (ground (arith, found)))
]

groups_found :
    (rest : Bytes)
    → (length (span is_host rest).0 == 0) ≡ false
    → all is_any (span is_port (skip_colon (span is_host rest).1)).1 ≡ true
    → groups rest
      ≡ some (record {
        first = (span is_host rest).0;
        second = (span is_port (skip_colon (span is_host rest).1)).0;
        third = (span is_port (skip_colon (span is_host rest).1)).1;
      })
unfolding groups
groups_found rest some_host clean = ground arith

groups_complete :
    (rest : Bytes) (g : Groups)
    → Matches (scheme ++ rest) g
    → (g' : Groups) × (groups rest ≡ some g')
groups_complete rest g m =
    let tail = m.separator ++ (g.second ++ g.third) in
    let same : rest ≡ g.first ++ tail = append_cancel_left scheme rest (g.first ++ tail) m.whole in
    let ports =
      all-append is_port g.first (m.separator ++ g.second) (all_host_port g.first m.first_of) (
        all-append is_port m.separator g.second (all_separator m.separator m.separated)
          m.second_of) in
    let clean : Clean rest =
      rw
        (
          same,
          sym (append_assoc m.separator g.second g.third),
          sym (append_assoc g.first (m.separator ++ g.second) g.third),
        )
        (append-Clean (g.first ++ (m.separator ++ g.second)) g.third ports
          (third_any g.third m.third_of)) in
    let some_host : (length (span is_host rest).0 == 0) ≡ false =
      rw same (span_some is_host g.first tail m.first_some m.first_of) in
    let behind = span is_host rest in
    (
      record {
        first = behind.0;
        second = (span is_port (skip_colon behind.1)).0;
        third = (span is_port (skip_colon behind.1)).1;
      },
      groups_found rest some_host (skip_colon-Clean behind.1 (span-Clean is_host rest clean)),
    )

regex_match_complete :
    (url : Bytes) (g : Groups) → Matches url g → (g' : Groups) × (regex_match url ≡ some g')
unfolding regex_match
regex_match_complete url g m =
    let rest = g.first ++ (m.separator ++ (g.second ++ g.third)) in
    let (g', found) = groups_complete rest g (record {
      separator = m.separator;
      whole = refl;
      first_some = m.first_some;
      first_of = m.first_of;
      separated = m.separated;
      second_of = m.second_of;
      third_of = m.third_of;
    }) in
    (g', rw (m.whole, strip-append scheme rest, regex_match) found)

-- The groups that are found are a match of the regular expression: the text is the scheme, the
-- first group, a colon or nothing, the second group and the third group, each of the characters
-- that the expression allows, and the first is not empty. If there is any match, one is found.
pub regex_match_iff :
    (url : Bytes)
    → ((g : Groups) → regex_match url ≡ some g → Matches url g)
      × ((g : Groups) → Matches url g → (g' : Groups) × (regex_match url ≡ some g'))
regex_match_iff url = (regex_match_sound url, regex_match_complete url)

-- A URL that is put together from a host, a port and a path is taken apart into the same three, if
-- the host is not empty and has no slash, dollar sign or colon, the port no slash or dollar sign,
-- the path no line terminator, and the path, if any, starts with a slash or a dollar sign.
pub regex_match-url :
    (host port path : Bytes)
    → host ≢ []
    → all is_host host ≡ true
    → all is_port port ≡ true
    → all is_any path ≡ true
    → Stops is_port path
    → regex_match (scheme ++ (host ++ (colon ∷ (port ++ path))))
      ≡ some (record { first = host; second = port; third = path })
unfolding regex_match
regex_match-url host port path ne h p a s =
    let rest = host ++ (colon ∷ (port ++ path)) in
    let first = span-append is_host host (colon ∷ (port ++ path)) h refl in
    let second = span-append is_port port path p s in
    let some_host = span_some is_host host (colon ∷ (port ++ path)) ne h in
    let found : groups rest ≡ some (record { first = host; second = port; third = path }) =
      ground (arith, first, second, some_host, groups_found rest) in
    rw (strip-append scheme rest, regex_match) found
