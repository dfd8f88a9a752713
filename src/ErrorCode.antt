-- ===== src/ErrorCode.antt =====
-- error.hpp and detail/error.hpp: error codes, and the exceptions that carry them.
use boost_windows_tls.Common.{ℕ, Bool, ◌!=◌}

-- `boost::system::error_category`; the library itself uses the system category only.
pub data Category : Type 0 where
  system : Category
  foreign : ℕ → Category

-- `boost::system::error_code`. The value is kept as its 32-bit pattern.
pub record ErrorCode : Type 0 where
  pub value : ℕ
  pub category : Category

-- `error_code{}`
abbrev pub no_error : ErrorCode
no_error = record { value = 0; category = system }

-- `operator bool`
abbrev pub failed : ErrorCode → Bool
failed ec = ec.value != 0

-- `error::make_error_code`
abbrev pub make_error_code : ℕ → ErrorCode
make_error_code sc = record { value = sc; category = system }

-- `get_last_error`: the thread's last error, in the system category.
abbrev pub get_last_error : ℕ → ErrorCode
get_last_error last = record { value = last; category = system }

-- What a function that may throw `system_error` gives back.
pub data Outcome {ℓ} (A : Type ℓ) : Type ℓ where
  returns : A → Outcome A
  throws : ErrorCode → Outcome A

-- `throw_last_error` and `throw_error`
abbrev pub throw_last_error {ℓ} : {A : Type ℓ} → ℕ → Outcome A
throw_last_error last = throws (get_last_error last)

abbrev pub throw_error {ℓ} : {A : Type ℓ} → ErrorCode → Outcome A
throw_error ec = throws ec
