-- ===== src/ControlPlane/Chained.antt =====
-- Who gets past the authentication and the guards, internal/controlplane/auth/auth.go.
use minato.Prelude.{
  ◌≡◌, refl, sym, ap, ◌∙◌, ◌⊎◌, inl, inr, ◌↔◌, true, false, none, some, Option-cases, Bool-cases,
  List, [], ◌∷◌, String, codes, Bytes, bytes_eq, bytes_eq-eq, Memᴰ, All-Memᴰ, split, subst, trim,
  trim_left, trim_right,
}
use minato.ControlPlane.Namespaces.{User}
use minato.ControlPlane.Rules.{
  RouteRule, default_rules, namespaced_rules, match_path, match_segments, is_template, segments,
  api_keys_path, api_key_path,
}
use minato.ControlPlane.Guards.{
  Verdict, passes, unauthorized, forbidden, route_guard, namespace_guard,
}
use minato.ControlPlane.Access.{
  IsAllowed, IsAdmin, IsApiKeys, namespace_guard-IsAllowed, route_guard-IsAdmin,
}
use minato.ControlPlane.Providers.{Request, Provider, Libraries, authenticate, authenticate_chain}
use minato.ControlPlane.Chain.{is_public, middleware, and_then, serve}
use minato.ControlPlane.Scopes.{HasNamespace, Scopes, namespaced_rules-Scopes}

-- `p` stands in the chain, it accepts the request as `u`, and every provider before it refuses it.
pub data FirstAccepts (l : Libraries) (r : Request) (u : User) : List Provider → Type 0 where
  here :
      (p : Provider) (ps : List Provider)
      → authenticate l p r ≡ some u
      → FirstAccepts l r u (p ∷ ps)
  later :
      (p : Provider) (ps : List Provider)
      → authenticate l p r ≡ none
      → FirstAccepts l r u ps
      → FirstAccepts l r u (p ∷ ps)

authenticate_chain_sound :
    (l : Libraries) (ps : List Provider) (r : Request) (u : User)
    → authenticate_chain l ps r ≡ some u
    → FirstAccepts l r u ps
unfolding authenticate_chain
authenticate_chain_sound l [] r u h = absurd (cc h)
authenticate_chain_sound l (p ∷ ps) r u h = elim (Option-cases (authenticate l p r)) [
  | inl e ↦ later p ps e (authenticate_chain_sound l ps r u (rw (authenticate_chain, e) at h))
  | inr (v, e) ↦ here p ps (e ∙ (rw (authenticate_chain, e) at h))
]

authenticate_chain_complete :
    (l : Libraries) (r : Request) (u : User) (ps : List Provider)
    → FirstAccepts l r u ps
    → authenticate_chain l ps r ≡ some u
unfolding authenticate_chain
authenticate_chain_complete l r u _ (here p ps e) = rw (authenticate_chain, e) refl
authenticate_chain_complete l r u _ (later p ps e f) =
    rw (authenticate_chain, e) (authenticate_chain_complete l r u ps f)

-- The chain authenticates a request as a user exactly when the first provider that accepts it does.
pub authenticate_chain-FirstAccepts :
    (l : Libraries) (ps : List Provider) (r : Request) (u : User)
    → (authenticate_chain l ps r ≡ some u) ↔ FirstAccepts l r u ps
authenticate_chain-FirstAccepts l ps r u =
    (authenticate_chain_sound l ps r u, authenticate_chain_complete l r u ps)

both_pass : (a b : Verdict) → and_then a b ≡ passes → (a ≡ passes) × (b ≡ passes)
unfolding and_then
both_pass passes b h = (refl, h)
both_pass unauthorized b h = absurd (cc h)
both_pass forbidden b h = absurd (cc h)

abbrev pub IsServed : Libraries → List Provider → String → Request → Type 0
IsServed l chain method r =
    (u : User) × (authenticate_chain l chain r ≡ some u)
    × (route_guard default_rules method r.path (some u) ≡ passes)
    × (namespace_guard r.path (some u) ≡ passes)

pub serve-cases :
    (l : Libraries) (chain : List Provider) (method : String) (r : Request)
    → serve l chain method r ≡ passes
    → is_public r.path ≡ false
    → IsServed l chain method r
unfolding serve middleware
serve-cases l chain method r h private = elim (Option-cases (authenticate_chain l chain r)) [
  | inl e ↦ absurd (cc (rw (serve, private, e) at h))
  | inr (u, e) ↦ let (a, b) = both_pass _ _ (rw (serve, private, e) at h) in (u, e, a, b)
]

public-cases :
    (path : Bytes)
    → is_public path ≡ true
    → (path ≡ codes "/healthz") ⊎ (path ≡ codes "/readyz") ⊎ (path ≡ codes "/auth/config")
public-cases path h = elim (Bool-cases (bytes_eq path (codes "/healthz"))) [
  | inl a ↦ inl (bytes_eq-eq path (codes "/healthz") a)
  | inr a ↦ elim (Bool-cases (bytes_eq path (codes "/readyz"))) [
    | inl b ↦ inr (inl (bytes_eq-eq path (codes "/readyz") b))
    | inr b ↦ inr (inr (bytes_eq-eq path (codes "/auth/config") (rw (a, b) at h)))
  ]
]

public_alone : (path : Bytes) → is_public path ≡ true → HasNamespace (segments path) → ⊥
unfolding segments trim trim_left trim_right split
public_alone path h = elim (public-cases path h) [
  | inl e ↦ subst (λ s. HasNamespace (segments s) → ⊥) (sym e) (λ n. n)
  | inr (inl e) ↦ subst (λ s. HasNamespace (segments s) → ⊥) (sym e) (λ n. n)
  | inr (inr e) ↦ subst (λ s. HasNamespace (segments s) → ⊥) (sym e) (λ n. n)
]

public_not_keys : (path : Bytes) → is_public path ≡ true → IsApiKeys path → ⊥
unfolding match_path match_segments is_template segments trim trim_left trim_right split
public_not_keys path h k = elim (public-cases path h) [
  | inl e ↦ none_of (codes "/healthz") refl refl e
  | inr (inl e) ↦ none_of (codes "/readyz") refl refl e
  | inr (inr e) ↦ none_of (codes "/auth/config") refl refl e
]
  where
    none_of :
        (s : Bytes)
        → match_path api_keys_path s ≡ false
        → match_path api_key_path s ≡ false
        → path ≡ s
        → ⊥
    none_of s a b e = elim k [
      | inl m ↦ cc (ap (match_path api_keys_path) e, m, a)
      | inr m ↦ cc (ap (match_path api_key_path) e, m, b)
    ]

-- Whatever the method, a request for the path of the API keys, or for that of one key, reaches its
-- handler only with a user that the chain has authenticated, whose role is admin and who is not
-- restricted to namespaces.
pub serve-IsAdmin :
    (l : Libraries) (chain : List Provider) (method : String) (r : Request)
    → IsApiKeys r.path
    → serve l chain method r ≡ passes
    → (u : User) × (authenticate_chain l chain r ≡ some u) × IsAdmin (some u)
serve-IsAdmin l chain method r k h = elim (Bool-cases (is_public r.path)) [
  | inl public ↦ absurd (public_not_keys r.path public k)
  | inr private ↦
      let (u, e, a, b) = serve-cases l chain method r h private in
      (u, e, route_guard-IsAdmin method r.path (some u) k a)
]

-- A request whose path matches a rule with a namespace reaches its handler only with a user that the
-- chain has authenticated and that may access the namespace which the path names.
pub serve-IsAllowed :
    (l : Libraries) (chain : List Provider) (method : String) (r : Request) (rule : RouteRule)
    → Memᴰ rule namespaced_rules
    → match_path rule.pattern r.path ≡ true
    → serve l chain method r ≡ passes
    → (u : User) × (authenticate_chain l chain r ≡ some u) × IsAllowed u (segments r.path)
serve-IsAllowed l chain method r rule m match h = elim (Bool-cases (is_public r.path)) [
  | inl public ↦ absurd (
      public_alone r.path public (
        All-Memᴰ (λ q. Scopes r.path q.pattern) namespaced_rules (namespaced_rules-Scopes r.path) m
          match))
  | inr private ↦
      let (u, e, a, b) = serve-cases l chain method r h private in
      (u, e, namespace_guard-IsAllowed rule r.path u m match b)
]
