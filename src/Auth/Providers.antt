-- ===== src/Auth/Providers.antt =====
-- The choice between providers in `AuthManager::authenticate` of src/auth/mod.rs.
use tei_manager.Base.{
  ◌≡◌, ◌↔◌, ◌⊎◌, refl, Bool, true, false, Option, none, some, List, [], ◌∷◌, arith, Result, ok, err,
}
use tei_manager.Auth.{
  AuthProvider, Protocol, AuthRequest, AuthResult, AuthError, AuthMessage, AuthManager, supports,
  judge, try_providers, authenticate,
}

-- The provider takes part, and authenticates the request so.
abbrev pub Accepts : AuthProvider → AuthRequest → AuthResult → Type 0
Accepts p req r =
    (supports p req.protocol ≡ true) × (p.authenticate req ≡ ok r) × (r.authenticated ≡ true)

-- The provider takes no part, fails, or does not authenticate.
abbrev pub Declines : AuthProvider → Protocol → Result AuthError AuthResult → Type 0
Declines p protocol (ok r) = (supports p protocol ≡ false) ⊎ (r.authenticated ≡ false)
Declines p protocol (err e) = Unit

-- The first provider that takes part and authenticates gives that result.
abbrev pub FirstAccepts : List AuthProvider → AuthRequest → AuthResult → Type 0
FirstAccepts [] req r = ⊥
FirstAccepts (p ∷ ps) req r =
    Accepts p req r ⊎ (Declines p req.protocol (p.authenticate req) × FirstAccepts ps req r)

try_providers_iff :
    (ps : List AuthProvider) (req : AuthRequest) (last : Option AuthError) (r : AuthResult)
    → (try_providers ps req last ≡ ok r) ↔ FirstAccepts ps req r
unfolding try_providers judge
try_providers_iff [] req last r = ground arith
try_providers_iff (p ∷ ps) req last r =
    go (λ l. try_providers_iff ps req l r) (supports p req.protocol) (p.authenticate req) refl refl
  where
    go :
        ((l : Option AuthError) → (try_providers ps req l ≡ ok r) ↔ FirstAccepts ps req r)
        → (b : Bool) → (a : Result AuthError AuthResult) → supports p req.protocol ≡ b
        → p.authenticate req ≡ a
        → (try_providers (p ∷ ps) req last ≡ ok r) ↔ FirstAccepts (p ∷ ps) req r
    go ih false a s e = ground (arith, ih last)
    go ih true (err x) s e = ground (arith, ih (some x))
    go ih true (ok k) s e = ground (
      arith,
      ih (some (AuthError.unauthorized (AuthMessage.format "{} authentication failed" p.name))),
    )

-- The manager authenticates a request exactly if some provider for its protocol does, and answers
-- what the first of these answers.
pub manager_iff :
    (m : AuthManager) (req : AuthRequest) (r : AuthResult)
    → (authenticate m req ≡ ok r) ↔ FirstAccepts m.providers req r
unfolding authenticate
manager_iff m req r = go m.providers refl
  where
    go :
        (ps : List AuthProvider)
        → m.providers ≡ ps
        → (authenticate m req ≡ ok r) ↔ FirstAccepts m.providers req r
    go [] e = ground (arith, e)
    go (p ∷ ps) e = ground (arith, e, try_providers_iff (p ∷ ps) req none r)
