-- ===== src/Auth/Mtls/Accepts.antt =====
-- What `MtlsProvider::authenticate` of src/auth/mtls.rs asks of a request.
use tei_manager.Base.{
  ℕ, ◌≡◌, ◌↔◌, ◌⊎◌, refl, String, true, false, Option, none, some, List, [], ◌∷◌, arith, Result, ok,
  err, str_eq_iff,
}
use tei_manager.Base.Text.{codes, contains}
use tei_manager.Config.{MtlsConfig, Timestamp}
use tei_manager.Auth.{AuthRequest, AuthResult, Der, TlsInfo}
use tei_manager.Auth.Mtls.{
  X509Parser, X509Certificate, MtlsProvider, nats_eq, is_before, is_after, check_validity,
  check_issuer, any_contained, any_equal, any_allowed, verify_subject, verify_sans, sans_of,
  verify_cert_chain, extract_subject, extract_sans, authenticate_cert, authenticate, auth_metadata,
}

abbrev Any {ℓ} : {A : Type ℓ} → (A → Type 0) → List A → Type 0
Any P [] = ⊥
Any P (x ∷ xs) = P x ⊎ Any P xs

nats_eq_iff : (xs ys : List ℕ) → (nats_eq xs ys ≡ true) ↔ (xs ≡ ys)
unfolding nats_eq
nats_eq_iff [] [] = ground arith
nats_eq_iff [] (y ∷ ys) = ground arith
nats_eq_iff (x ∷ xs) [] = ground arith
nats_eq_iff (x ∷ xs) (y ∷ ys) = ground (arith, nats_eq_iff xs ys)

any_contained_iff :
    (subject : String) (allowed : List String)
    → (any_contained subject allowed ≡ true)
      ↔ Any (λ a. contains (codes a) (codes subject) ≡ true) allowed
unfolding any_contained
any_contained_iff subject [] = ground arith
any_contained_iff subject (a ∷ allowed) = ground (arith, any_contained_iff subject allowed)

any_equal_iff :
    (san : String) (allowed : List String)
    → (any_equal san allowed ≡ true) ↔ Any (λ a. san ≡ a) allowed
unfolding any_equal
any_equal_iff san [] = ground arith
any_equal_iff san (a ∷ allowed) = ground (arith, any_equal_iff san allowed, str_eq_iff san a)

any_allowed_iff :
    (sans allowed : List String)
    → (any_allowed sans allowed ≡ true) ↔ Any (λ san. Any (λ a. san ≡ a) allowed) sans
unfolding any_allowed
any_allowed_iff [] allowed = ground arith
any_allowed_iff (san ∷ sans) allowed =
    ground (arith, any_allowed_iff sans allowed, any_equal_iff san allowed)

abbrev pub SubjectAllowed : MtlsConfig → String → Type 0
SubjectAllowed c subject =
    (c.verify_subject ≡ false)
    ⊎ (c.allowed_subjects ≡ [])
    ⊎ Any (λ a. contains (codes a) (codes subject) ≡ true) c.allowed_subjects

abbrev pub SansAllowed : MtlsConfig → List String → Type 0
SansAllowed c sans =
    (c.verify_san ≡ false)
    ⊎ (c.allowed_sans ≡ [])
    ⊎ Any (λ san. Any (λ a. san ≡ a) c.allowed_sans) sans

verify_subject_iff :
    (c : MtlsConfig) (subject : String)
    → (verify_subject c subject ≡ ok tt) ↔ SubjectAllowed c subject
unfolding verify_subject
verify_subject_iff c subject = go c.allowed_subjects refl
  where
    go :
        (allowed : List String)
        → c.allowed_subjects ≡ allowed
        → (verify_subject c subject ≡ ok tt) ↔ SubjectAllowed c subject
    go [] e = ground arith
    go (a ∷ allowed) e = ground (arith, any_contained_iff subject (a ∷ allowed))

verify_sans_iff :
    (c : MtlsConfig) (sans : List String) → (verify_sans c sans ≡ ok tt) ↔ SansAllowed c sans
unfolding verify_sans
verify_sans_iff c sans = go c.allowed_sans refl
  where
    go :
        (allowed : List String)
        → c.allowed_sans ≡ allowed
        → (verify_sans c sans ≡ ok tt) ↔ SansAllowed c sans
    go [] e = ground arith
    go (a ∷ allowed) e = ground (arith, any_allowed_iff sans (a ∷ allowed))

module _ (x : X509Parser) (now : Timestamp) (p : MtlsProvider) where
  abbrev pub IsTrusted : Der → X509Certificate → X509Certificate → Type 0
  IsTrusted der client ca =
      (x.from_der der ≡ ok client)
      × (x.from_der p.ca_cert_der ≡ ok ca)
      × ((p.config.allow_self_signed ≡ true) ⊎ (client.issuer.raw ≡ ca.subject.raw))
      × (is_before now client.not_before ≡ false)
      × (is_after now client.not_after ≡ false)

  abbrev pub IsIdentity : X509Certificate → AuthResult → Type 0
  IsIdentity client r =
      SubjectAllowed p.config client.subject.text
      × SansAllowed p.config (sans_of x client.extensions)
      × (r ≡ record {
        authenticated = true;
        principal = some client.subject.text;
        metadata = auth_metadata client.subject.text (sans_of x client.extensions);
      })

  authenticate_cert_iff :
      (der : Der) (r : AuthResult)
      → (authenticate_cert x now p der ≡ ok r) ↔ (
          (client : X509Certificate) × (ca : X509Certificate) × IsTrusted der client ca
          × IsIdentity client r)
  unfolding authenticate_cert verify_cert_chain extract_subject extract_sans check_issuer
      check_validity
  authenticate_cert_iff der r = go (x.from_der der) (x.from_der p.ca_cert_der) refl refl
    where
      go :
          (a b : Result String X509Certificate)
          → x.from_der der ≡ a
          → x.from_der p.ca_cert_der ≡ b
          → (authenticate_cert x now p der ≡ ok r) ↔ (
              (client : X509Certificate) × (ca : X509Certificate) × IsTrusted der client ca
              × IsIdentity client r)
      go (err e) b h k = ground arith
      go (ok client) (err e) h k = ground arith
      go (ok client) (ok ca) h k = ground (
        arith,
        nats_eq_iff client.issuer.raw ca.subject.raw,
        verify_subject_iff p.config client.subject.text,
        verify_sans_iff p.config (sans_of x client.extensions),
      )

  abbrev pub Presents : AuthRequest → Der → Type 0
  Presents req der =
      (info : TlsInfo) × (req.tls_info ≡ some info) × (info.peer_certificate ≡ some der)

  -- The provider authenticates exactly the requests with a certificate that parses, names the CA's
  -- subject as its issuer (or self-signed ones are allowed), is valid at that time, and passes both
  -- allowlists. A subject passes if checking is off, the list is empty, or some entry is contained
  -- anywhere in the subject's text, so that CN=client1 also admits CN=client10. The alternative names
  -- pass if checking is off, the list is empty, or one of them equals an entry: a DNS name bare, without
  -- the prefix DNS:, an IP address in its debug format. The principal is the subject. No signature is
  -- looked at.
  pub authenticate_iff :
      (req : AuthRequest) (r : AuthResult)
      → (authenticate x now p req ≡ ok r) ↔ (
          (der : Der) × (client : X509Certificate) × (ca : X509Certificate) × Presents req der
          × IsTrusted der client ca
          × IsIdentity client r)
  unfolding authenticate
  authenticate_iff req r = go req.tls_info refl
    where
      Goal : Type 0
      Goal = (authenticate x now p req ≡ ok r) ↔ (
          (der : Der) × (client : X509Certificate) × (ca : X509Certificate) × Presents req der
          × IsTrusted der client ca
          × IsIdentity client r)

      with_certificate :
          (info : TlsInfo) (c : Option Der)
          → req.tls_info ≡ some info
          → info.peer_certificate ≡ c
          → Goal
      with_certificate info none h k = ground arith
      with_certificate info (some der) h k = (
        λ e.
            let (client, ca, trusted, identity) = (authenticate_cert_iff der r).0 (ground arith) in
            (der, client, ca, (info, h, k), trusted, identity),
        λ (other, client, ca, (info', h', k'), trusted, identity).
            let same : other ≡ der = ground arith in
            let accepted : authenticate_cert x now p other ≡ ok r =
              (authenticate_cert_iff other r).1 (client, ca, trusted, identity) in
            ground arith,
      )

      go : (t : Option TlsInfo) → req.tls_info ≡ t → Goal
      go none h = ground arith
      go (some info) h = with_certificate info info.peer_certificate h refl
