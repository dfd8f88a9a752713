-- ===== src/Tests/Certificates.antt =====
-- Certificates, keys and TLS records at concrete inputs.
use boost_windows_tls.Common.{
  ℕ, suc, ◌-◌, ◌≡◌, refl, ◌⊎◌, ◌↔◌, true, ◌!=◌, if◌then◌else◌, arith, some, [], ◌∷◌, ◌++◌,
}
use boost_windows_tls.Windows.{error_success}
use boost_windows_tls.Flags.{system_default}
use boost_windows_tls.Context.{CertApi, Context, verify_certificate}
use boost_windows_tls.Context.Verification.{TrustedByStore, TrustedBySystem, verify_certificate_iff}
use boost_windows_tls.Context.Releasing.{ChainLedger, verify_certificate_releases}
use boost_windows_tls.Certificate.Crypto.{CryptApi}
use boost_windows_tls.Certificate.{asn1, pem, import_private_key, x509_to_cert_context_ec}
use boost_windows_tls.Certificate
use boost_windows_tls.Certificate.Outcomes.{
  Leaves, Ledger, Same, Reports, import_private_key_releases, x509_to_cert_context_ec-Reports,
}
use boost_windows_tls.TlsRecord.{TlsRecord, handshake, client_hello, read_record}
use boost_windows_tls.TlsRecord.Roundtrip.{IsRecord, record_bytes, read_record-record_bytes}
use boost_windows_tls.Tests.Fixtures.{World, certificates, certificates-FailsWithCode}

abbrev idle : World
idle = record { freed = []; incoming = []; sent = [] }

-- A context with a store of its own that may also ask the system.
abbrev both : Context
both = record {
  ctx_certs = record { cert_store = 3; use_default_cert_store = true; server_cert = 0 };
  method = system_default;
  verify_server = true;
}

verify_certificate_iff_example :
    ((verify_certificate certificates 5 both idle).0 ≡ error_success)
    ↔ (TrustedByStore certificates 5 both idle ⊎ TrustedBySystem certificates 5 both idle)
verify_certificate_iff_example =
    verify_certificate_iff certificates certificates-FailsWithCode 5 both idle refl

-- Engines and chains by their numbers.
abbrev counting : CertApi (ℕ × ℕ)
counting = record {
  open_store = λ w. (3, w);
  close_store = λ s w. w;
  add_certificate = λ s c w. (true, w);
  last_error = λ w. 6;
  create_chain_engine = λ s (engines, chains). (true, 4, (suc engines, chains));
  free_chain_engine = λ e (engines, chains). (if e != 0 then engines - 1 else engines, chains);
  get_chain = λ e c (engines, chains). (true, 7, (engines, suc chains));
  free_chain = λ c (engines, chains). (engines, chains - 1);
  verify_policy = λ c w. (true, 8, w);
  duplicate = λ c w. (c, w);
  free_certificate = λ c w. w;
}

abbrev counting-ChainLedger : ChainLedger counting
counting-ChainLedger = record {
  engines = λ w. w.0;
  chains = λ w. w.1;
  create_engines = λ s w. refl;
  create_chains = λ s w. refl;
  create_handle = λ s w. refl;
  free_engines = λ e w. refl;
  free_engine_chains = λ e w. refl;
  get_engines = λ e c w. refl;
  get_chains = λ e c w. refl;
  policy_engines = λ c w. refl;
  policy_chains = λ c w. refl;
  free_chain_engines = λ c w. refl;
  free_chains = λ c w. refl;
}

verify_certificate_releases_example :
    ((verify_certificate counting 5 both (0, 0)).1.0 ≡ 0)
    × ((verify_certificate counting 5 both (0, 0)).1.1 ≡ 0)
verify_certificate_releases_example =
    verify_certificate_releases counting counting-ChainLedger 5 both (0, 0)

-- How many contexts and keys are held.
abbrev Held : Type 0
Held = ℕ × ℕ

-- Functions that succeed and count what they hand out.
abbrev crypt : CryptApi Held
crypt = record {
  last_error = λ w. 87;
  binary_size = λ t w. (true, 2, w);
  to_binary = λ t n w. (true, t, w);
  decoded_size = λ d t w. (true, 2, w);
  decode = λ d t n w. (true, t, w);
  is_rsa = λ info. true;
  key_blob = λ info. info;
  create_certificate = λ bs w. (4, w);
  acquire_context = λ name flags (contexts, keys). (true, 5, (suc contexts, keys));
  release_context = λ c (contexts, keys). (contexts - 1, keys);
  import_key = λ c k (contexts, keys). (true, 6, (contexts, suc keys));
  destroy_key = λ k (contexts, keys). (contexts, if k != 0 then keys - 1 else keys);
  set_key_container = λ cert name w. (true, w);
}

abbrev crypt-Ledger : Ledger crypt
crypt-Ledger = record {
  contexts = λ w. w.0;
  keys = λ w. w.1;
  acquire_contexts = λ name w. refl;
  acquire_keys = λ name w. refl;
  import_contexts = λ c k w. refl;
  import_keys = λ c k w. refl;
  import_handle = λ c k w. refl;
  release_contexts = λ c w. refl;
  release_keys = λ c w. refl;
  destroy_contexts = λ k w. refl;
  destroy_keys = λ k w. refl;
  binary_size_same = λ t w. (refl, refl);
  to_binary_same = λ t n w. (refl, refl);
  decoded_size_same = λ d t w. (refl, refl);
  decode_same = λ d t n w. (refl, refl);
}

crypt-FailsWithCode : Certificate.Outcomes.FailsWithCode crypt
crypt-FailsWithCode = record {
  binary_size_code = λ t w h. omega arith;
  to_binary_code = λ t n w h. omega arith;
  create_code = λ t w h. omega arith;
}

import_private_key_releases_example :
    Leaves
      (Same crypt crypt-Ledger true (0, 0))
      (import_private_key crypt true (1 ∷ 2 ∷ []) pem (7 ∷ []) (0, 0))
import_private_key_releases_example =
    import_private_key_releases crypt crypt-Ledger true (1 ∷ 2 ∷ []) pem (7 ∷ []) (0, 0)

x509_to_cert_context_ec-Reports_example :
    Reports (x509_to_cert_context_ec crypt true (1 ∷ 2 ∷ []) pem (0, 0))
x509_to_cert_context_ec-Reports_example =
    x509_to_cert_context_ec-Reports crypt crypt-FailsWithCode true (1 ∷ 2 ∷ []) pem (0, 0)

-- A handshake record that says hello.
abbrev hello : TlsRecord
hello = record {
  type = 22;
  version = 771;
  size = 196;
  message = handshake (record { type = 1; size = 192; message = client_hello });
}

hello-IsRecord : IsRecord hello
hello-IsRecord = record {
  typed = refl;
  version_fits = omega arith;
  size_fits = omega arith;
  consistent = (refl, omega arith);
}

read_record-record_bytes_example : read_record (record_bytes hello ++ (3 ∷ 3 ∷ [])) ≡ some hello
read_record-record_bytes_example = read_record-record_bytes hello (3 ∷ 3 ∷ []) hello-IsRecord
