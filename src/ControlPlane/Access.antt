-- ===== src/ControlPlane/Access.antt =====
-- What passes the guards of the control plane, internal/controlplane/rbac/routeguard.go.
use minato.Prelude.{
  ◌≡◌, refl, ◌∙◌, sym, ap, ◌⊎◌, inl, inr, String, Bool, true, false, not, ◌&&◌, Option, none, some,
  List, [], ◌∷◌, ◌++◌, ◌==◌, if◌then◌else◌, str_eq, eq_iff, arith, All, All-Memᴰ, Memᴰ, Bool-cases,
  codes, Bytes, bytes_eq, bytes_eq-eq, bytes_eq_refl, is_nil, length, ends_with, trim, trim_left,
  trim_right, split, All-map,
}
use minato.ControlPlane.Namespaces.{User, cluster_wide, allows_namespace}
use minato.ControlPlane.Guards.{
  passes, forbidden, contains_role, decide, route_guard, namespace_guard,
}
use minato.ControlPlane.Scopes.{HasNamespace, Scopes, namespaced_rules-Scopes}
use minato.ControlPlane.Rules.{
  admins, RouteRule, namespaced_rules, api_key_rules, default_rules, api_keys_path, api_key_path,
  is_template, segments, match_segments, match_path, namespace_of, namespace_from_path,
}

-- The fourth segment is not empty, and the user may access the namespace of that name.
abbrev pub IsAllowed : User → List Bytes → Type 0
IsAllowed u (a ∷ b ∷ c ∷ d ∷ rest) = (is_nil d ≡ false) × (allows_namespace u d ≡ true)
IsAllowed u _ = ⊥

allowed :
    (u : User) (path : Bytes) (ss : List Bytes)
    → segments path ≡ ss
    → HasNamespace ss
    → namespace_guard path (some u) ≡ passes
    → IsAllowed u ss
unfolding namespace_guard namespace_from_path
allowed u path [] e h p = h
allowed u path (a ∷ []) e h p = h
allowed u path (a ∷ b ∷ []) e h p = h
allowed u path (a ∷ b ∷ c ∷ []) e h p = h
allowed u path (a ∷ b ∷ c ∷ d ∷ rest) e (n, full, k) p =
    let same : namespace_of (segments path) ≡ d = ap namespace_of e ∙ n in
    (full, ground (arith, ap is_nil same, ap (allows_namespace u) same))

-- A path that matches a rule with a namespace passes the namespace guard, for a user, only if the
-- fourth segment of the path is not empty and the user may access the namespace of that name.
pub namespace_guard-IsAllowed :
    (rule : RouteRule) (path : Bytes) (u : User)
    → Memᴰ rule namespaced_rules
    → match_path rule.pattern path ≡ true
    → namespace_guard path (some u) ≡ passes
    → IsAllowed u (segments path)
namespace_guard-IsAllowed rule path u m h p =
    allowed u path (segments path) refl
      (All-Memᴰ (λ r. Scopes path r.pattern) namespaced_rules (namespaced_rules-Scopes path) m h) p

-- Rules that do not match are passed over.
route_guard_skip :
    (rules later : List RouteRule) (method : String) (path : Bytes) (user : Option User)
    → All (λ r. match_path r.pattern path ≡ false) rules
    → route_guard (rules ++ later) method path user ≡ route_guard later method path user
unfolding route_guard
route_guard_skip [] later method path user h = refl
route_guard_skip (r ∷ rules) later method path user h =
    ground (arith, h.0, route_guard_skip rules later method path user h.1)

third_apikeys :
    (ss : List Bytes)
    → match_segments (codes "api" ∷ codes "v1" ∷ codes "apikeys" ∷ codes "{keyId}" ∷ []) ss ≡ true
    → HasNamespace ss
    → ⊥
unfolding match_segments is_template ends_with
third_apikeys [] h n = n
third_apikeys (a ∷ []) h n = n
third_apikeys (a ∷ b ∷ []) h n = n
third_apikeys (a ∷ b ∷ c ∷ []) h n = n
third_apikeys (a ∷ b ∷ c ∷ d ∷ rest) h (f, full, other) =
    let same : codes "apikeys" ≡ c = bytes_eq-eq (codes "apikeys") c (ground arith) in
    absurd
      (ground (arith, ap (λ s. bytes_eq s (codes "apikeys")) same, bytes_eq_refl (codes "apikeys")))

three_segments : (ss : List Bytes) → (3 == length ss) ≡ true → HasNamespace ss → ⊥
three_segments [] h n = n
three_segments (a ∷ []) h n = n
three_segments (a ∷ b ∷ []) h n = n
three_segments (a ∷ b ∷ c ∷ []) h n = n
three_segments (a ∷ b ∷ c ∷ d ∷ rest) h n = absurd (ground arith)

-- The path is that of the API keys, or of one of them.
abbrev pub IsApiKeys : Bytes → Type 0
IsApiKeys path = (match_path api_keys_path path ≡ true) ⊎ (match_path api_key_path path ≡ true)

matched :
    (pattern path : Bytes) (ps : List Bytes)
    → segments pattern ≡ ps
    → match_path pattern path ≡ true
    → ((length ps == length (segments path)) ≡ true) × (match_segments ps (segments path) ≡ true)
unfolding match_path
matched pattern path ps e h = (
  ap (λ ss. length ss == length (segments path)) (sym e) ∙ ground arith,
  ap (λ ss. match_segments ss (segments path)) (sym e) ∙ ground arith,
)

api_keys_segments : segments api_keys_path ≡ codes "api" ∷ codes "v1" ∷ codes "apikeys" ∷ []
unfolding segments trim trim_left trim_right split
api_keys_segments = refl

api_key_segments :
    segments api_key_path ≡ codes "api" ∷ codes "v1" ∷ codes "apikeys" ∷ codes "{keyId}" ∷ []
unfolding segments trim trim_left trim_right split
api_key_segments = refl

unscoped : (path : Bytes) → IsApiKeys path → HasNamespace (segments path) → ⊥
unscoped path (inl h) n =
    let (l, m) =
      matched api_keys_path path (codes "api" ∷ codes "v1" ∷ codes "apikeys" ∷ []) api_keys_segments
        h in
    three_segments (segments path) l n
unscoped path (inr h) n =
    let (l, m) =
      matched api_key_path path (codes "api" ∷ codes "v1" ∷ codes "apikeys" ∷ codes "{keyId}" ∷ [])
        api_key_segments h in
    third_apikeys (segments path) m n

unmatched :
    (path : Bytes) → IsApiKeys path → All (λ r. match_path r.pattern path ≡ false) namespaced_rules
unmatched path k =
    All-map namespaced_rules
      (λ r scope. elim (Bool-cases (match_path r.pattern path)) [
        | inl matches ↦ absurd (unscoped path k (scope matches))
        | inr misses ↦ misses
      ])
      (namespaced_rules-Scopes path)

-- There is a user, of the role admin and without a restriction to namespaces.
abbrev pub IsAdmin : Option User → Type 0
IsAdmin none = ⊥
IsAdmin (some u) = (u.role ≡ "admin") × (cluster_wide u ≡ true)

decided :
    (role : String) (wide : Bool)
    → (if not (if str_eq "admin" role then true else false)
        then forbidden
        else if true && not wide
        then forbidden
        else passes)
      ≡ passes
    → (role ≡ "admin") × (wide ≡ true)
decided role wide h = elim (Bool-cases (str_eq "admin" role)) [
  | inl same ↦ (sym ((eq_iff "admin" role).0 same), ground arith)
  | inr other ↦ absurd (ground arith)
]

decide-IsAdmin :
    (rule : RouteRule) (user : Option User)
    → rule.roles ≡ "admin" ∷ []
    → rule.cluster_wide ≡ true
    → decide rule user ≡ passes
    → IsAdmin user
unfolding decide contains_role
decide-IsAdmin rule none r w h = absurd (ground arith)
decide-IsAdmin rule (some u) r w h =
    decided u.role (cluster_wide u) (ground (arith, ap (λ rs. contains_role rs u.role) r))

admitted :
    (method : String) (path : Bytes) (user : Option User)
    → IsApiKeys path
    → route_guard api_key_rules method path user ≡ passes
    → IsAdmin user
unfolding route_guard api_key_rules
admitted method path user k h = elim (Bool-cases (match_path api_keys_path path)) [
  | inl first ↦
      decide-IsAdmin
        (record { method = "*"; pattern = api_keys_path; roles = admins; cluster_wide = true }) user
        refl refl (ground arith)
  | inr later ↦ elim k [
    | inl first ↦ absurd (ground arith)
    | inr second ↦
        decide-IsAdmin
          (record { method = "*"; pattern = api_key_path; roles = admins; cluster_wide = true })
          user refl refl (ground arith)
  ]
]

-- Under the default rules, whatever the method, a request for the path of the API keys or for that of
-- one key passes the route guard only if it has a user whose role is admin and who is not restricted to namespaces.
pub route_guard-IsAdmin :
    (method : String) (path : Bytes) (user : Option User)
    → IsApiKeys path
    → route_guard default_rules method path user ≡ passes
    → IsAdmin user
unfolding default_rules
route_guard-IsAdmin method path user k h =
    admitted method path user k (
      sym (route_guard_skip namespaced_rules api_key_rules method path user (unmatched path k)) ∙ h)
