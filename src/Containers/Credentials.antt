-- ===== src/Containers/Credentials.antt =====
-- The credentials of a pull secret: pkg/containers/auth.go.
use mathlib.Core.Option
use cluster_api_agent.Prelude.{
  String, ◌==◌, ◌≡◌, ◌≢◌, refl, [], ◌∷◌, Option, none, some, Map, lookup, insert, UniqueKeys,
  lookup-insert, arith, eq_iff, Bool-cases, Option-cases, inl, inr,
}
use cluster_api_agent.Kube.Errors.{Err, Outcome, ok, exit}
use cluster_api_agent.Kube.Objects.{AuthConfig, Keychain}
use cluster_api_agent.Containers.{
  Codecs, Authenticator, anonymous, from_config, credential, add_credential, credentials,
  pull_secret_keychain, keychain_resolve,
}

-- What a registry's entry decodes to, or what was known of it before.
abbrev expected :
    Codecs → String → Option String → Option AuthConfig → Option (Outcome Err AuthConfig)
expected codecs registry none before = Option.map ok before
expected codecs registry (some auth) before = some (credential codecs registry auth)

-- What a registry is resolved to, by its entry.
abbrev pub Resolved : Codecs → String → Option String → Authenticator → Type 0
Resolved codecs registry none a = a ≡ anonymous
Resolved codecs registry (some auth) a =
    (config : AuthConfig) × (credential codecs registry auth ≡ ok config) × (a ≡ from_config config)

module _ (codecs : Codecs) (registry : String) where
  credentials_after_failure :
      (auths : Map String) (e : Err) {kc' : Keychain} → credentials codecs auths (exit e) ≢ ok kc'
  unfolding credentials
  credentials_after_failure [] e h = cc
  credentials_after_failure (entry ∷ rest) e h = cc

  -- One round of the loop, by what its entry decodes to.
  credentials_step :
      (j auth : String) (rest : Map String) (kc : Keychain) (r : Outcome Err AuthConfig)
      {kc' : Keychain}
      → credential codecs j auth ≡ r
      → lookup j rest ≡ none
      → UniqueKeys rest
      → ((config : AuthConfig)
          → credentials codecs rest (ok (insert j config kc)) ≡ ok kc'
          → Option.map {B = Outcome Err AuthConfig} ok (lookup registry kc')
            ≡ expected codecs registry
                (lookup registry rest)
                (lookup registry (insert j config kc)))
      → credentials codecs ((j, auth) ∷ rest) (ok kc) ≡ ok kc'
      → Option.map {B = Outcome Err AuthConfig} ok (lookup registry kc')
        ≡ expected codecs registry (lookup registry ((j, auth) ∷ rest)) (lookup registry kc)
  unfolding credentials add_credential lookup
  credentials_step j auth rest kc (exit e) decoded fresh unique next h =
      absurd (credentials_after_failure rest e (rw decoded at h))
  credentials_step j auth rest kc (ok config) {kc'} decoded fresh unique next h =
      rw (next config (rw decoded at h)) (elim (Bool-cases (j == registry)) [
        | inl same ↦
            let e : j ≡ registry = (eq_iff j registry).0 same in
            rw (← e) (ground (arith, eq_iff j j, lookup-insert j j config kc))
        | inr other ↦ rw (lookup-insert, other) refl
      ])

  lookup-credentials :
      (auths : Map String) (kc : Keychain) {kc' : Keychain}
      → UniqueKeys auths
      → credentials codecs auths (ok kc) ≡ ok kc'
      → Option.map {B = Outcome Err AuthConfig} ok (lookup registry kc')
        ≡ expected codecs registry (lookup registry auths) (lookup registry kc)
  unfolding lookup credentials
  lookup-credentials [] kc unique h = ground arith
  lookup-credentials ((j, auth) ∷ rest) kc unique h =
      credentials_step j auth rest kc _ refl unique.0 unique.1
        (λ config h'. lookup-credentials rest (insert j config kc) unique.1 h') h

keychain_resolve-Resolved :
    (codecs : Codecs) (registry : String) (o : Option String) (kc : Keychain)
    → Option.map {B = Outcome Err AuthConfig} ok (lookup registry kc)
      ≡ expected codecs registry o none
    → Resolved codecs registry o (keychain_resolve kc registry)
unfolding keychain_resolve
keychain_resolve-Resolved codecs registry none kc h = ground arith
keychain_resolve-Resolved codecs registry (some auth) kc h =
    elim (Option-cases (lookup registry kc)) [
      | inl unknown ↦ absurd (ground arith)
      | inr (config, known) ↦ (config, ground arith, ground arith)
    ]

-- From a pull secret that loads, the credentials of a registry are resolved to what its entry
-- decodes to, and to anonymous access where it has none.
pub pull_secret_keychain_resolves :
    (codecs : Codecs) (pull_secret registry : String) {auths : Map String} {kc : Keychain}
    → codecs.unmarshal_auths pull_secret ≡ ok auths
    → UniqueKeys auths
    → pull_secret_keychain codecs pull_secret ≡ ok kc
    → Resolved codecs registry (lookup registry auths) (keychain_resolve kc registry)
pull_secret_keychain_resolves codecs pull_secret registry {auths} {kc} unmarshalled unique h =
    keychain_resolve-Resolved codecs registry (lookup registry auths) kc (
      unfold lookup in
      lookup-credentials codecs registry auths [] unique
        (unfold pull_secret_keychain in rw (unmarshalled, pull_secret_keychain) at h))
