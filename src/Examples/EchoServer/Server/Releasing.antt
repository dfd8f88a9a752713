-- ===== src/Examples/EchoServer/Server/Releasing.antt =====
-- examples/echo_server.cpp: the certificates that the server holds while it runs, and what is left of
-- them in the end.
use boost_windows_tls.Windows.{aborts}
use boost_windows_tls.Common.{
  true, sym, Bool-cases, inl, inr, ℕ, suc, ◌+◌, ◌-◌, ◌≡◌, arith, ◌!=◌, if◌then◌else◌, Bytes,
}
use boost_windows_tls.Schannel.{CertContext}
use boost_windows_tls.Context.{CertApi, Context, use_certificate, new_context}
use boost_windows_tls.Context
use boost_windows_tls.Certificate.{
  import_into, with_error_code, pem, x509_to_cert_context, import_private_key,
  import_private_key_ec, assign_private_key, delete_private_key, delete_private_key_ec,
}
use boost_windows_tls.Certificate.Crypto.{
  pkcs_private_key_info, pkcs_rsa_private_key, new_keyset, delete_keyset, new_keyset, DecodeType,
  KeysetFlags, Call, returned, thrown, stopped, and_then, crypt_string_to_binary,
  crypt_decode_object_ex,
}
use boost_windows_tls.Examples.EchoServer.Server.{
  leave, Setting, on_exit, set_up_with, set_up, tear_down, serve,
}

-- What holds when a call returns, and when it throws.
abbrev pub After {ℓ} :
    {World : Type 0} {A : Type ℓ} → (A → World → Type 0) → (World → Type 0) → Call World A → Type 0
After R T (returned a w) = R a w
After R T (thrown e w) = T w
After R T stopped = Unit {0}

and_then-After {ℓ} :
    {World : Type 0} {A B : Type ℓ} (R : A → World → Type 0) (R' : B → World → Type 0)
    (T : World → Type 0) (c : Call World A) (f : A → World → Call World B)
    → After R T c
    → ((a : A) (w : World) → R a w → After R' T (f a w))
    → After R' T (and_then c f)
and_then-After R R' T (returned a w) f h k = k a w h
and_then-After R R' T (thrown e w) f h k = h
and_then-After R R' T stopped f h k = tt

on_exit-After {ℓ} :
    {World : Type 0} {A : Type ℓ} (R R' : A → World → Type 0) (T T' : World → Type 0)
    (f : World → World) (c : Call World A)
    → After R T c
    → ((a : A) (w : World) → R a w → R' a (f w))
    → ((w : World) → T w → T' (f w))
    → After R' T' (on_exit f c)
on_exit-After R R' T T' f (returned a w) h k l = k a w h
on_exit-After R R' T T' f (thrown e w) h k l = l w h
on_exit-After R R' T T' f stopped h k l = tt

-- Whether a certificate context is one, as a number.
abbrev pub one_if_set : CertContext → ℕ
one_if_set cert = if cert != 0 then 1 else 0

-- How many certificate contexts the program holds, and how the calls change that.
pub record Copies {World : Type 0} (g : Setting World) : Type 0 where
  pub held : World → ℕ
  pub creates :
      (bs : Bytes) (w : World)
      → let (cert, w') = g.crypt.create_certificate bs w in held w' ≡ held w + one_if_set cert
  pub duplicates :
      (c : CertContext) (w : World)
      → let (cert, w') = g.certs.duplicate c w in held w' ≡ held w + one_if_set cert
  pub frees : (c : CertContext) (w : World) → held (g.certs.free_certificate c w) ≡ held w - 1
  pub closes : (s : ℕ) (w : World) → held (g.certs.close_store s w) ≡ held w
  pub binary_size_same : (t : Bytes) (w : World) → held (g.crypt.binary_size t w).2 ≡ held w
  pub to_binary_same : (t : Bytes) (n : ℕ) (w : World) → held (g.crypt.to_binary t n w).2 ≡ held w
  pub decoded_size_same :
      (d : DecodeType) (t : Bytes) (w : World) → held (g.crypt.decoded_size d t w).2 ≡ held w
  pub decode_same :
      (d : DecodeType) (t : Bytes) (n : ℕ) (w : World) → held (g.crypt.decode d t n w).2 ≡ held w
  pub acquire_same :
      (name : Bytes) (f : KeysetFlags) (w : World)
      → held (g.crypt.acquire_context name f w).2 ≡ held w
  pub release_same : (c : ℕ) (w : World) → held (g.crypt.release_context c w) ≡ held w
  pub import_same : (c : ℕ) (k : Bytes) (w : World) → held (g.crypt.import_key c k w).2 ≡ held w
  pub destroy_same : (k : ℕ) (w : World) → held (g.crypt.destroy_key k w) ≡ held w
  pub container_same :
      (c : CertContext) (name : Bytes) (w : World)
      → held (g.crypt.set_key_container c name w).1 ≡ held w

module _ {World : Type 0} (g : Setting World) (copies : Copies g) where
  open copies use {held}

  -- A call that leaves a number of contexts, however it ends.
  abbrev pub Holds {ℓ} : {A : Type ℓ} → ℕ → Call World A → Type 0
  Holds n c = After (λ a w. held w ≡ n) (λ w. held w ≡ n) c

  with_error_code-Holds {ℓ} :
      {A : Type ℓ} (n : ℕ) (fallback : A) (c : Call World A)
      → Holds n c
      → Holds n (with_error_code fallback c)
  with_error_code-Holds n fallback (returned a w) h = h
  with_error_code-Holds n fallback (thrown e w) h = h
  with_error_code-Holds n fallback stopped h = tt

  and_then-Holds {ℓ} :
      {A B : Type ℓ} (n : ℕ) (c : Call World A) (f : A → World → Call World B)
      → Holds n c
      → ((a : A) (w : World) → held w ≡ n → Holds n (f a w))
      → Holds n (and_then c f)
  and_then-Holds n c f h k =
      and_then-After (λ a w. held w ≡ n) (λ b w. held w ≡ n) (λ w. held w ≡ n) c f h k

  binary-Holds :
      (n : ℕ) (t : Bytes) (w : World) → held w ≡ n → Holds n (crypt_string_to_binary g.crypt t w)
  unfolding crypt_string_to_binary
  binary-Holds n t w h =
      let (sized, m, w') = g.crypt.binary_size t w in
      ground (arith, copies.binary_size_same t w, copies.to_binary_same t m w')

  decode-Holds :
      (n : ℕ) (d : DecodeType) (t : Bytes) (w : World)
      → held w ≡ n
      → Holds n (crypt_decode_object_ex g.crypt d t w)
  unfolding crypt_decode_object_ex
  decode-Holds n d t w h =
      let (sized, m, w') = g.crypt.decoded_size d t w in
      ground (arith, copies.decoded_size_same d t w, copies.decode_same d t m w')

  import_into-Holds :
      (n : ℕ) (name key : Bytes) (w : World)
      → held w ≡ n
      → Holds n (import_into g.crypt g.debug name key w)
  unfolding import_into
  import_into-Holds n name key w h =
      let (acquired, context, w₁) = g.crypt.acquire_context name new_keyset w in
      let (imported, handle, w₂) = g.crypt.import_key context key w₁ in
      ground (
        arith,
        copies.acquire_same name new_keyset w,
        copies.import_same context key w₁,
        copies.destroy_same handle w₂,
        copies.release_same context (g.crypt.destroy_key handle w₂),
      )

  import-Holds :
      (n : ℕ) (w : World)
      → held w ≡ n
      → Holds n (import_private_key g.crypt g.debug g.rsa_key pem g.private_key_name_ w)
  unfolding import_private_key
  import-Holds n w h = elim (Bool-cases (aborts g.debug true)) [
    | inl refused ↦ rw (refused, import_private_key) tt
    | inr accepted ↦
        rw (accepted, import_private_key)
          (and_then-Holds n _ (import_into g.crypt g.debug g.private_key_name_)
            (and_then-Holds n _ _
              (and_then-Holds n (crypt_string_to_binary g.crypt g.rsa_key w) _
                (binary-Holds n g.rsa_key w h) (decode-Holds n pkcs_private_key_info))
              (λ info w' h'. elim (Bool-cases (aborts g.debug (g.crypt.is_rsa info))) [
                | inl other ↦ rw other tt
                | inr rsa ↦
                    rw rsa (decode-Holds n pkcs_rsa_private_key (g.crypt.key_blob info) w' h')
              ]))
            (import_into-Holds n g.private_key_name_))
  ]

  imported-Holds :
      (n : ℕ) (w : World)
      → held w ≡ n
      → Holds n (import_private_key_ec g.crypt g.debug g.rsa_key pem g.private_key_name_ w)
  unfolding import_private_key_ec
  imported-Holds n w h =
      with_error_code-Holds n tt
        (import_private_key g.crypt g.debug g.rsa_key pem g.private_key_name_ w)
        (import-Holds n w h)

  assign-Holds :
      (n : ℕ) (cert : CertContext) (w : World)
      → held w ≡ n
      → Holds n (assign_private_key g.crypt g.debug g.mbstowcs cert g.private_key_name_ w)
  unfolding assign_private_key
  assign-Holds n cert w h =
      ground (arith, copies.container_same cert (g.mbstowcs g.private_key_name_).1 w)

  -- The certificate that is made is one more.
  create-After :
      (n : ℕ) (w : World)
      → held w ≡ n
      → After
          (λ cert w'. held w' ≡ suc n)
          (λ w'. held w' ≡ n)
          (x509_to_cert_context g.crypt g.debug g.x509_certificate pem w)
  unfolding x509_to_cert_context
  create-After n w h = elim (Bool-cases (aborts g.debug true)) [
    | inl refused ↦ rw (refused, x509_to_cert_context) tt
    | inr accepted ↦
        rw (accepted, x509_to_cert_context)
          (and_then-After (λ bs w'. held w' ≡ n) (λ cert w'. held w' ≡ suc n) (λ w'. held w' ≡ n)
            (crypt_string_to_binary g.crypt g.x509_certificate w) _
            (binary-Holds n g.x509_certificate w h)
            (λ bs w' h'. ground (arith, copies.creates bs w')))
  ]

  -- The context that is set up holds a copy, if there is one.
  abbrev pub held_by : Context → ℕ
  held_by ctx = one_if_set ctx.ctx_certs.server_cert

  set_up_with-After :
      (n : ℕ) (cert : CertContext) (w : World)
      → held w ≡ n
      → After (λ ctx w'. held w' ≡ n + held_by ctx) (λ w'. held w' ≡ n) (set_up_with g cert w)
  unfolding set_up_with use_certificate new_context
  set_up_with-After n cert w h =
      and_then-After (λ u w'. held w' ≡ n) (λ ctx w'. held w' ≡ n + held_by ctx) (λ w'. held w' ≡ n)
        _ _
        (and_then-Holds n _ _
          (and_then-Holds n _ _ (imported-Holds n w h) (λ r w' h'. ground (arith, h')))
          (λ u w'. assign-Holds n cert w'))
        (λ u w' h'. ground (arith, h', copies.duplicates cert w'))

  set_up-After :
      (n : ℕ) (w : World)
      → held w ≡ n
      → After (λ ctx w'. held w' ≡ n + held_by ctx) (λ w'. held w' ≡ n) (set_up g w)
  unfolding set_up
  set_up-After n w h =
      and_then-After (λ cert w'. held w' ≡ suc n) (λ ctx w'. held w' ≡ n + held_by ctx)
        (λ w'. held w' ≡ n) (x509_to_cert_context g.crypt g.debug g.x509_certificate pem w)
        (λ cert w'. on_exit (g.certs.free_certificate cert) (set_up_with g cert w'))
        (create-After n w h)
        (λ cert w' h'.
          on_exit-After (λ ctx w''. held w'' ≡ suc n + held_by ctx)
            (λ ctx w''. held w'' ≡ n + held_by ctx) (λ w''. held w'' ≡ suc n) (λ w''. held w'' ≡ n)
            (g.certs.free_certificate cert) (set_up_with g cert w')
            (set_up_with-After (suc n) cert w' h')
            (λ ctx w'' k. omega (arith, copies.frees cert w''))
            (λ w'' k. omega (arith, copies.frees cert w'')))

  delete-Holds :
      (n : ℕ) (w : World)
      → held w ≡ n
      → Holds n (delete_private_key_ec g.crypt g.debug g.private_key_name_ w)
  unfolding delete_private_key_ec delete_private_key
  delete-Holds n w h = ground (arith, copies.acquire_same g.private_key_name_ delete_keyset w)

  destruct_gives_back :
      (n : ℕ) (ctx : Context) (w : World)
      → held w ≡ n + held_by ctx
      → held (Context.destruct g.certs ctx w) ≡ n
  unfolding Context.destruct
  destruct_gives_back n ctx w h =
      let c = ctx.ctx_certs in
      ground (
        arith,
        copies.closes c.cert_store w,
        copies.frees c.server_cert w,
        copies.frees c.server_cert (g.certs.close_store c.cert_store w),
      )

  tear_down-Holds :
      (n : ℕ) (ctx : Context) (w : World) → held w ≡ n + held_by ctx → Holds n (tear_down g ctx w)
  unfolding tear_down
  tear_down-Holds n ctx w h =
      on_exit-After (λ r w'. held w' ≡ n + held_by ctx) (λ r w'. held w' ≡ n)
        (λ w'. held w' ≡ n + held_by ctx) (λ w'. held w' ≡ n) (Context.destruct g.certs ctx)
        (delete_private_key_ec g.crypt g.debug g.private_key_name_ w)
        (delete-Holds (n + held_by ctx) w h) (λ r. destruct_gives_back n ctx)
        (destruct_gives_back n ctx)

  leave-Holds :
      (n : ℕ) (ctx : Context) (c : Call World (Unit {0}))
      → Holds (n + held_by ctx) c
      → Holds n (leave g ctx c)
  leave-Holds n ctx (returned u w) h =
      and_then-Holds n (tear_down g ctx w) _ (tear_down-Holds n ctx w h) (λ r w' k. k)
  leave-Holds n ctx (thrown e w) h =
      and_then-Holds n (tear_down g ctx w) _ (tear_down-Holds n ctx w h) (λ r w' k. k)
  leave-Holds n ctx stopped h = tt

  -- However the echo server ends, by a port that cannot be opened, an exception of its constructor,
  -- an exception of io_context::run, or a return from it, the program holds as many certificate
  -- contexts afterwards as before, if opening the port and running the handlers leave their number
  -- alone.
  pub serve_releases :
      (listen : ℕ → World → Call World (Unit {0})) (run : Context → World → Call World (Unit {0}))
      (port : ℕ) (w : World)
      → ((w' : World) → Holds (held w') (listen port w'))
      → ((ctx : Context) (w' : World) → Holds (held w') (run ctx w'))
      → Holds (held w) (serve g listen run port w)
  unfolding serve
  serve_releases listen run port w listens runs =
      let n = held w in
      and_then-After (λ ctx w'. held w' ≡ n + held_by ctx) (λ u w'. held w' ≡ n) (λ w'. held w' ≡ n)
        _ _
        (and_then-After (λ u w'. held w' ≡ n) (λ ctx w'. held w' ≡ n + held_by ctx)
          (λ w'. held w' ≡ n) (listen port w) _ (listens w) (λ u w'. set_up-After n w'))
        (λ ctx w' h. leave-Holds n ctx (run ctx w') (rw (sym h) (runs ctx w')))
