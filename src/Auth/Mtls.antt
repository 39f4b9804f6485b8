-- ===== src/Auth/Mtls.antt =====
-- src/auth/mtls.rs: the provider that checks the client's certificate. The parser of certificates is
-- an argument, and so is the time, in seconds since the epoch.
pub mod Accepts
use tei_manager.Base.{
  ℕ, String, Bool, true, false, not, ◌&&◌, ◌||◌, Option, none, some, List, [], ◌∷◌, ◌++◌, ltb, ◌==◌,
  if◌then◌else◌, Result, ok, err, ok_or, map_err, and_then, str_eq,
}
use tei_manager.Base.Dict.{Dict, insert}
use tei_manager.Base.Text.{codes, contains, join}
use tei_manager.Config.{MtlsConfig, Timestamp}
use tei_manager.Auth.{AuthError, AuthMessage, AuthProvider, AuthRequest, AuthResult, Der, TlsInfo}

-- An `X509Name`: its bytes, by which two are compared, and its text.
pub record X509Name : Type 0 where
  pub raw : Der
  pub text : String

pub data GeneralName : Type 0 where
  dns_name : String → GeneralName
  ip_address : List ℕ → GeneralName
  other : GeneralName

pub data ParsedExtension : Type 0 where
  subject_alternative_name : List GeneralName → ParsedExtension
  other_extension : ParsedExtension

-- A time before the epoch is not after any time of the clock.
pub data Moment : Type 0 where
  before_epoch : Moment
  at : Timestamp → Moment

pub record X509Certificate : Type 0 where
  pub issuer : X509Name
  pub subject : X509Name
  pub not_before : Moment
  pub not_after : Moment
  pub extensions : List ParsedExtension

-- The parser, and the debug text of an address.
pub record X509Parser : Type 0 where
  pub from_der : Der → Result String X509Certificate
  pub ip_debug : List ℕ → String

unfoldable pub nats_eq : List ℕ → List ℕ → Bool
nats_eq [] [] = true
nats_eq [] (y ∷ ys) = false
nats_eq (x ∷ xs) [] = false
nats_eq (x ∷ xs) (y ∷ ys) = x == y && nats_eq xs ys

unfoldable pub is_before : Timestamp → Moment → Bool
is_before now before_epoch = false
is_before now (at t) = ltb now t

unfoldable pub is_after : Timestamp → Moment → Bool
is_after now before_epoch = true
is_after now (at t) = ltb t now

-- `MtlsProvider`.
pub record MtlsProvider : Type 0 where
  pub config : MtlsConfig
  pub ca_cert_der : Der

-- What `iter_from_buffer` answers on the CA file's bytes: its blocks, or an error.
pub pem_to_der : Result String (List Der) → Result AuthError Der
pem_to_der (err e) =
    err (AuthError.internal (AuthMessage.format "Failed to parse PEM certificate: {}" e))
pem_to_der (ok []) =
    err (AuthError.internal (AuthMessage.text "No PEM blocks found in certificate file"))
pem_to_der (ok (block ∷ blocks)) = ok block

-- `MtlsProvider::new`, with what reading the file answers; the message leaves out the path.
pub new_provider :
    MtlsConfig → Result String (Result String (List Der)) → Result AuthError MtlsProvider
new_provider config read =
    and_then
      (map_err (λ e. AuthError.internal (AuthMessage.format "Failed to read CA certificate: {}" e))
        read)
      (λ blocks.
        and_then (pem_to_der blocks) (λ der. ok (record { config = config; ca_cert_der = der })))

unfoldable pub check_validity : Timestamp → X509Certificate → Result AuthError (Unit {0})
check_validity now cert =
    if is_before now cert.not_before
    then err (AuthError.cert_verification_failed (AuthMessage.text "Certificate not yet valid"))
    else if is_after now cert.not_after
    then err (AuthError.cert_verification_failed (AuthMessage.text "Certificate has expired"))
    else ok tt

unfoldable pub check_issuer : Bool → X509Certificate → X509Certificate → Result AuthError (Unit {0})
check_issuer allow_self_signed client ca =
    if allow_self_signed
    then ok tt
    else if not (nats_eq client.issuer.raw ca.subject.raw)
    then err (
        AuthError.cert_verification_failed
          (AuthMessage.text "Client certificate not signed by configured CA"))
    else ok tt

pub sans_of_names : X509Parser → List GeneralName → List String
sans_of_names x [] = []
sans_of_names x (GeneralName.dns_name dns ∷ names) = dns ∷ sans_of_names x names
sans_of_names x (GeneralName.ip_address ip ∷ names) = x.ip_debug ip ∷ sans_of_names x names
sans_of_names x (GeneralName.other ∷ names) = sans_of_names x names

unfoldable pub sans_of : X509Parser → List ParsedExtension → List String
sans_of x [] = []
sans_of x (ParsedExtension.subject_alternative_name names ∷ exts) =
    sans_of_names x names ++ sans_of x exts
sans_of x (ParsedExtension.other_extension ∷ exts) = sans_of x exts

pub any_contained : String → List String → Bool
any_contained subject [] = false
any_contained subject (allowed ∷ rest) =
    contains (codes allowed) (codes subject) || any_contained subject rest

pub any_equal : String → List String → Bool
any_equal san [] = false
any_equal san (allowed ∷ rest) = str_eq san allowed || any_equal san rest

pub any_allowed : List String → List String → Bool
any_allowed [] allowed = false
any_allowed (san ∷ sans) allowed = any_equal san allowed || any_allowed sans allowed

abbrev is_empty : List String → Bool
is_empty [] = true
is_empty (_ ∷ _) = false

-- `verify_subject` and `verify_sans`.
unfoldable pub verify_subject : MtlsConfig → String → Result AuthError (Unit {0})
verify_subject c subject =
    if not c.verify_subject
    then ok tt
    else if is_empty c.allowed_subjects
    then ok tt
    else if any_contained subject c.allowed_subjects
    then ok tt
    else err (AuthError.unauthorized (AuthMessage.format "Subject '{}' not in allowlist" subject))

unfoldable pub verify_sans : MtlsConfig → List String → Result AuthError (Unit {0})
verify_sans c sans =
    if not c.verify_san
    then ok tt
    else if is_empty c.allowed_sans
    then ok tt
    else if any_allowed sans c.allowed_sans
    then ok tt
    else err
        (AuthError.unauthorized (AuthMessage.format_list "No SANs in allowlist (got: {:?})" sans))

pub auth_metadata : String → List String → Dict String
auth_metadata subject sans =
    let base = insert "cert_subject" subject (insert "auth_method" "mtls" []) in
    if is_empty sans then base else insert "cert_sans" (join "," sans) base

module _ (x : X509Parser) (now : Timestamp) (p : MtlsProvider) where
  parse : (String → AuthError) → Der → Result AuthError X509Certificate
  parse e der = map_err e (x.from_der der)

  unfoldable pub verify_cert_chain : Der → Result AuthError (Unit {0})
  unfolding parse
  verify_cert_chain der =
      and_then
        (parse
          (λ e.
            AuthError.invalid_cert (AuthMessage.format "Failed to parse client certificate: {}" e))
          der)
        (λ client.
          and_then
            (parse
              (λ e. AuthError.internal (AuthMessage.format "Failed to parse CA certificate: {}" e))
              p.ca_cert_der)
            (λ ca.
              and_then (check_issuer p.config.allow_self_signed client ca)
                (λ _. check_validity now client)))

  unfoldable pub extract_subject : Der → Result AuthError String
  unfolding parse
  extract_subject der =
      and_then
        (parse
          (λ e. AuthError.invalid_cert (AuthMessage.format "Failed to parse certificate: {}" e))
          der)
        (λ cert. ok cert.subject.text)

  unfoldable pub extract_sans : Der → Result AuthError (List String)
  unfolding parse
  extract_sans der =
      and_then
        (parse
          (λ e. AuthError.invalid_cert (AuthMessage.format "Failed to parse certificate: {}" e))
          der)
        (λ cert. ok (sans_of x cert.extensions))

  -- `MtlsProvider::authenticate` from the certificate on.
  authenticate_cert : Der → Result AuthError AuthResult
  authenticate_cert der = and_then (verify_cert_chain der) (λ _.
      and_then (extract_subject der) (λ subject. and_then (verify_subject p.config subject) (λ _.
        and_then (extract_sans der) (λ sans. and_then (verify_sans p.config sans) (λ _. ok (record {
          authenticated = true;
          principal = some subject;
          metadata = auth_metadata subject sans;
        }))))))

  unfoldable pub authenticate : AuthRequest → Result AuthError AuthResult
  unfolding authenticate_cert
  authenticate req = and_then (ok_or req.tls_info AuthError.missing_client_cert) (λ info.
      and_then (ok_or info.peer_certificate AuthError.missing_client_cert) authenticate_cert)

  abbrev pub mtls_provider : AuthProvider
  mtls_provider = record {
    authenticate = authenticate;
    supports_http = true;
    supports_grpc = true;
    name = "mtls";
  }
