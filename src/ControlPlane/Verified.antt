-- ===== src/ControlPlane/Verified.antt =====
-- What a control plane that authenticates by OpenID Connect alone lets through, BuildChainWithStorage and
-- the provider of internal/controlplane/auth.
use minato.Prelude.{
  some_injective, ◌≡◌, refl, sym, ap, ◌∙◌, inl, inr, Bool, true, false, ◌||◌, none, some, Option,
  Option-cases, Bool-cases, List, [], ◌∷◌, String, codes, Bytes, str_eq, is_nil, split, trim_space,
  trim_space_left, trim_space_right, to_lower, bytes_eq, subst, if◌then◌else◌,
}
use minato.ControlPlane.Namespaces.{User, comma}
use minato.ControlPlane.Guards.{passes}
use minato.ControlPlane.Oidc.{
  OidcConfig, Verifier, OidcProvider, OidcClaims, IdToken, OidcLibrary, trim_slash,
  new_oidc_provider, authenticate_oidc,
}
use minato.ControlPlane.Providers.{
  Request, Provider, oidc, Libraries, extract_bearer, authenticate, authenticate_chain,
}
use minato.ControlPlane.Chain.{
  AuthConfig, nothing, adds, refuses, add_oidc, add_mode, onto_chain, add_modes, or_none_provider,
  build_chain, is_public, serve,
}
use minato.ControlPlane.Chained.{serve-cases}

-- The verifier of the configured client at the configured issuer, less a final slash.
abbrev pub configured : OidcConfig → Verifier
configured cfg = record { issuer = trim_slash (codes cfg.issuer_url); client_id = cfg.client_id }

-- The verifier accepts the text as a token whose claims decode.
abbrev pub IsVerified : OidcLibrary → Verifier → Bytes → Type 0
IsVerified l v raw =
    (token : IdToken) × (claims : OidcClaims) × (l.verify v raw ≡ some token)
    × (token.claims ≡ some claims)

new_oidc_provider-configured :
    (l : OidcLibrary) (cfg : OidcConfig) (p : OidcProvider)
    → new_oidc_provider l cfg ≡ some p
    → p.verifier ≡ configured cfg
unfolding new_oidc_provider
new_oidc_provider-configured l cfg p h =
    elim (Bool-cases (str_eq cfg.issuer_url "" || str_eq cfg.client_id "")) [
      | inl a ↦ absurd (cc (rw (new_oidc_provider, a) at h))
      | inr a ↦ elim (Bool-cases (l.discover (trim_slash (codes cfg.issuer_url)))) [
        | inl b ↦ sym (ap (λ q. q.verifier) (some_injective (rw (new_oidc_provider, a, b) at h)))
        | inr b ↦ absurd (cc (rw (new_oidc_provider, a, b) at h))
      ]
    ]

authenticate_oidc-IsVerified :
    (l : OidcLibrary) (p : OidcProvider) (raw : Bytes) (u : User)
    → authenticate_oidc l p raw ≡ some u
    → IsVerified l p.verifier raw
unfolding authenticate_oidc
authenticate_oidc-IsVerified l p raw u h = elim (Bool-cases (is_nil raw)) [
  | inl a ↦ absurd (cc (rw (authenticate_oidc, a) at h))
  | inr a ↦ elim (Option-cases (l.verify p.verifier raw)) [
    | inl b ↦ absurd (cc (rw (authenticate_oidc, a, b) at h))
    | inr (token, b) ↦ elim (Option-cases token.claims) [
      | inl c ↦ absurd (cc (rw (authenticate_oidc, a, b, c) at h))
      | inr (claims, c) ↦ (token, claims, b, c)
    ]
  ]
]

only_one :
    (b : Bool) (o : Option OidcProvider) (chain : List Provider)
    → b ≡ true
    → onto_chain
        (if b then elim o [ none ↦ refuses | some p ↦ adds (oidc p) ] else nothing)
        (some [])
      ≡ some chain
    → (p : OidcProvider) × (o ≡ some p) × (chain ≡ oidc p ∷ [])
unfolding onto_chain
only_one true none chain on h = absurd (cc h)
only_one true (some p) chain on h = (p, refl, sym (some_injective h))
only_one false o chain on h = absurd (cc on)

module _ (l : Libraries) (cfg : AuthConfig) where
  add_oidc-added :
      (chain : List Provider)
      → cfg.oidc.enabled ≡ true
      → onto_chain (add_oidc l cfg) (some []) ≡ some chain
      → (p : OidcProvider) × (new_oidc_provider l.openid cfg.oidc ≡ some p) × (chain ≡ oidc p ∷ [])
  unfolding add_oidc
  add_oidc-added chain on h =
      only_one cfg.oidc.enabled (new_oidc_provider l.openid cfg.oidc) chain on h

  add_modes-oidc :
      cfg.mode ≡ codes "oidc"
      → add_modes l cfg (split comma cfg.mode) ≡ onto_chain (add_oidc l cfg) (some [])
  unfolding add_modes add_mode split trim_space trim_space_left trim_space_right to_lower bytes_eq
  add_modes-oidc only = ap (λ mode. add_modes l cfg (split comma mode)) only

  build_chain-verified :
      (chain : List Provider)
      → cfg.mode ≡ codes "oidc"
      → cfg.oidc.enabled ≡ true
      → build_chain l cfg ≡ some chain
      → (p : OidcProvider) × (new_oidc_provider l.openid cfg.oidc ≡ some p) × (chain ≡ oidc p ∷ [])
  unfolding build_chain or_none_provider
  build_chain-verified chain only on h =
      elim (Option-cases (onto_chain (add_oidc l cfg) (some []))) [
        | inl a ↦
            let e : add_modes l cfg (split comma cfg.mode) ≡ none = add_modes-oidc only ∙ a in
            absurd (cc (rw (build_chain, e) at h))
        | inr (ps, a) ↦
            let (p, made, alone) = add_oidc-added ps on a in
            let e : add_modes l cfg (split comma cfg.mode) ≡ some (oidc p ∷ []) =
              add_modes-oidc only ∙ a ∙ ap some alone in
            (p, made, sym (some_injective (rw (build_chain, e) at h)))
      ]

  -- Where the only mode is oidc and it is enabled, a request past the public paths reaches its handler
  -- only with a bearer token that the verifier of the configured client at the configured issuer
  -- accepts.
  pub serve-IsVerified :
      (chain : List Provider) (method : String) (r : Request)
      → cfg.mode ≡ codes "oidc"
      → cfg.oidc.enabled ≡ true
      → build_chain l cfg ≡ some chain
      → is_public r.path ≡ false
      → serve l chain method r ≡ passes
      → IsVerified l.openid (configured cfg.oidc) (extract_bearer r)
  unfolding authenticate_chain authenticate
  serve-IsVerified chain method r only on built private h =
      let (p, made, alone) = build_chain-verified chain only on built in
      let (u, accepted, _, _) = serve-cases l chain method r h private in
      subst (λ v. IsVerified l.openid v (extract_bearer r))
        (new_oidc_provider-configured l.openid cfg.oidc p made)
        (authenticate_oidc-IsVerified l.openid p (extract_bearer r) u (
          alone_accepts (authenticate_oidc l.openid p (extract_bearer r)) u
            (sym (ap (λ ps. authenticate_chain l ps r) alone) ∙ accepted)))
    where
      alone_accepts :
          (o : Option User) (u : User)
          → elim o [ none ↦ none | some v ↦ some v ] ≡ some u
          → o ≡ some u
      alone_accepts none u e = e
      alone_accepts (some v) u e = e
