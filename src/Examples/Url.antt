-- ===== src/Examples/Url.antt =====
-- examples/https_client.cpp and examples/async_https_client.cpp: the parts of the URL, which the
-- regular expression https://([^/$:]+):?([^/$]*)(/?.*) gives.
pub mod Matching
use boost_windows_tls.Common.{
  ℕ, zero, suc, ◌-◌, Bool, true, false, not, ◌==◌, ◌||◌, ltb, if◌then◌else◌, Option, none, some,
  List, [], ◌∷◌, Bytes, length,
}

abbrev pub slash : ℕ
slash = 47

abbrev pub dollar : ℕ
dollar = 36

abbrev pub colon : ℕ
colon = 58

-- `https://`
abbrev pub scheme : Bytes
scheme = 104 ∷ 116 ∷ 116 ∷ 112 ∷ 115 ∷ colon ∷ slash ∷ slash ∷ []

-- `[^/$:]`
abbrev pub is_host : ℕ → Bool
is_host c = not ((c == slash) || (c == dollar) || (c == colon))

-- `[^/$]`
abbrev pub is_port : ℕ → Bool
is_port c = not ((c == slash) || (c == dollar))

-- `.`, which no line terminator matches.
abbrev pub is_any : ℕ → Bool
is_any c = not ((c == 10) || (c == 13))

abbrev pub all : (ℕ → Bool) → Bytes → Bool
all f [] = true
all f (c ∷ cs) = let rest = all f cs in if f c then rest else false

-- The longest prefix of such characters, and what follows it.
unfoldable pub span : (ℕ → Bool) → Bytes → Bytes × Bytes
span f [] = ([], [])
span f (c ∷ cs) = let (front, back) = span f cs in if f c then (c ∷ front, back) else ([], c ∷ cs)

-- What follows a prefix, if it is one.
unfoldable pub strip : Bytes → Bytes → Option Bytes
strip [] bs = some bs
strip (p ∷ ps) [] = none
strip (p ∷ ps) (b ∷ bs) = let rest = strip ps bs in if p == b then rest else none

-- `:?`
abbrev pub skip_colon : Bytes → Bytes
skip_colon [] = []
skip_colon (c ∷ cs) = if c == colon then cs else c ∷ cs

-- The three groups.
pub record Groups : Type 0 where
  pub first : Bytes
  pub second : Bytes
  pub third : Bytes

-- The groups, behind the scheme. Each repetition takes as much as it can; giving some back would only
-- leave more for the last, which takes everything but line terminators.
unfoldable pub groups : Bytes → Option Groups
groups rest =
    let (first, behind) = span is_host rest in
    let (second, third) = span is_port (skip_colon behind) in
    if (length first == 0) || not (all is_any third)
    then none
    else some (record { first = first; second = second; third = third })

-- `regex_match(url, what, re)`
unfoldable pub regex_match : Bytes → Option Groups
regex_match url = elim (strip scheme url) [ none ↦ none | some rest ↦ groups rest ]

-- `host`, `port` and `path`
pub record Target : Type 0 where
  pub host : Bytes
  pub port : Bytes
  pub path : Bytes

-- `443`
abbrev pub https_port : Bytes
https_port = 52 ∷ 52 ∷ 51 ∷ []

-- The relevant parts, or their defaults.
abbrev pub target_of : Groups → Target
target_of what = record {
  host = what.first;
  port = if not (length what.second == 0) then what.second else https_port;
  path = if not (length what.third == 0) then what.third else slash ∷ [];
}
