-- ===== src/Examples/EchoServer/Server.antt =====
-- examples/echo_server.cpp: the server that accepts connections, and main.
pub mod Releasing
use boost_windows_tls.Common.{
  ℕ, suc, ◌+◌, ◌*◌, ◌-◌, ◌%◌, ◌^◌, Bool, not, ◌==◌, ◌!=◌, ltb, ◌&&◌, ◌||◌, if◌then◌else◌, List, [],
  ◌∷◌, Bytes, Array, length,
}
use boost_windows_tls.ErrorCode.{ErrorCode, failed, no_error}
use boost_windows_tls.Schannel.{CertContext}
use boost_windows_tls.Flags.{system_default}
use boost_windows_tls.Context.{CertApi, Context, new_context, use_certificate}
use boost_windows_tls.Context
use boost_windows_tls.Certificate.{
  pem, x509_to_cert_context, import_private_key_ec, assign_private_key, delete_private_key_ec,
}
use boost_windows_tls.Certificate.Crypto.{CryptApi, Call, returned, thrown, stopped, and_then}
use boost_windows_tls.Connection.{TlsStream}
use boost_windows_tls.Examples.EchoServer.{Session, new_session, start, nte_exists}

-- What the server is built on: the functions on certificates and keys, the conversion to wide
-- characters, whether assertions are on, and the constants of certificate.hpp.
pub record Setting (World : Type 0) : Type 0 where
  pub crypt : CryptApi World
  pub certs : CertApi World
  pub mbstowcs : Bytes → ℕ × Bytes
  pub debug : Bool
  pub x509_certificate : Bytes
  pub rsa_key : Bytes
  pub private_key_name_ : Bytes

-- What runs when a scope is left, whether by a value or by an exception.
abbrev pub on_exit {ℓ} :
    {World : Type 0} {A : Type ℓ} → (World → World) → Call World A → Call World A
on_exit f (returned a w) = returned a (f w)
on_exit f (thrown e w) = thrown e (f w)
on_exit f stopped = stopped

module _ {World : Type 0} (g : Setting World) where
  -- An error other than that the key exists already is thrown.
  abbrev check_imported : Unit {0} × ErrorCode → World → Call World (Unit {0})
  check_imported (u, ec) w =
      if failed ec && (ec.value != nte_exists) then thrown ec w else returned tt w

  -- `use_certificate` of the context that the server has just made.
  abbrev present : CertContext → Unit {0} → World → Call World Context
  present cert u w =
      let (ctx, w') = use_certificate g.certs cert (new_context system_default) w in returned ctx w'

  -- The body of the constructor, with the certificate that it has made.
  unfoldable pub set_up_with : CertContext → World → Call World Context
  set_up_with cert w =
      and_then
        (and_then
          (and_then (import_private_key_ec g.crypt g.debug g.rsa_key pem g.private_key_name_ w)
            check_imported)
          (λ u w'. assign_private_key g.crypt g.debug g.mbstowcs cert g.private_key_name_ w'))
        (present cert)

  -- The constructor of `server`, behind that of the acceptor: the context that it leaves. The
  -- certificate is released at its end.
  unfoldable pub set_up : World → Call World Context
  set_up w =
      and_then (x509_to_cert_context g.crypt g.debug g.x509_certificate pem w)
        (λ cert w'. on_exit (g.certs.free_certificate cert) (set_up_with cert w'))

  -- The destructor, with that of the context.
  unfoldable pub tear_down : Context → World → Call World (Unit {0} × ErrorCode)
  tear_down ctx w =
      on_exit (Context.destruct g.certs ctx)
        (delete_private_key_ec g.crypt g.debug g.private_key_name_ w)

-- What the acceptor waits for and the sessions that it has started.
pub record Accepting (World : Type 0) : Type 0 where
  pub sessions : List (Session World)
  pub reports : List ErrorCode

module _ {World : Type 0} where
  -- The handler of `async_accept`: a session of its own for a connection that comes, with the stream
  -- made on it and an array of whatever it held; then the next one is waited for.
  unfoldable pub on_accept : ErrorCode → TlsStream World → Array → Accepting World → Accepting World
  on_accept ec stream a s =
      if not (failed ec)
      then record s { sessions = start (new_session stream a) ∷ s.sessions }
      else record s { reports = ec ∷ s.reports }

-- `main`: what it prints to the error stream, if anything, and the exit code.
pub data Ending : Type 0 where
  usage : ℕ → Ending
  exception : ErrorCode → ℕ → Ending
  ended : ℕ → Ending

-- `std::isspace`
abbrev is_space : ℕ → Bool
is_space c = (c == 32) || (not (ltb c 9) && ltb c 14)

abbrev is_digit : ℕ → Bool
is_digit c = not (ltb c 48) && ltb c 58

abbrev digits : ℕ → Bytes → ℕ
digits n [] = n
digits n (c ∷ cs) = let more = digits (n * 10 + (c - 48)) cs in if is_digit c then more else n

-- A number with its sign, in 16 bits.
abbrev signed_port : Bytes → ℕ
signed_port [] = 0
signed_port (c ∷ cs) =
    if c == 45
    then (2 ^ 16 - digits 0 cs % 2 ^ 16) % 2 ^ 16
    else (if c == 43 then digits 0 cs % 2 ^ 16 else digits 0 (c ∷ cs) % 2 ^ 16)

-- `static_cast<std::uint16_t>(std::atoi(arg))`, of a number that an int can hold.
unfoldable pub to_port : Bytes → ℕ
to_port [] = 0
to_port (c ∷ cs) = let rest = to_port cs in if is_space c then rest else signed_port (c ∷ cs)

module _ {World : Type 0} where
  -- What `main` makes of an exception.
  abbrev pub conclude : Call World (Unit {0}) → Call World Ending
  conclude (returned u w) = returned (ended 0) w
  conclude (thrown e w) = returned (exception e 0) w
  conclude stopped = stopped

module _ {World : Type 0} (g : Setting World) where
  -- The server goes, whether `io_context::run` returns or throws.
  abbrev pub leave : Context → Call World (Unit {0}) → Call World (Unit {0})
  leave ctx (returned u w) = and_then (tear_down g ctx w) (λ r w'. returned tt w')
  leave ctx (thrown e w) = and_then (tear_down g ctx w) (λ r w'. thrown e w')
  leave ctx stopped = stopped

  module _ (listen : ℕ → World → Call World (Unit {0}))
      (run : Context → World → Call World (Unit {0})) where
    -- The block of `main` that may throw. `listen` opens the acceptor, and `run` is `io_context::run`
    -- with the handlers of the server.
    unfoldable pub serve : ℕ → World → Call World (Unit {0})
    serve port w =
        and_then (and_then (listen port w) (λ u w'. set_up g w')) (λ ctx w'. leave ctx (run ctx w'))

    -- `main`, for the arguments behind the program's name.
    unfoldable pub main : List Bytes → World → Call World Ending
    main [] w = returned (usage 1) w
    main (port ∷ []) w = conclude (serve (to_port port) w)
    main (a ∷ b ∷ more) w = returned (usage 1) w
