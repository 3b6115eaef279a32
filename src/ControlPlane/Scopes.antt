-- ===== src/ControlPlane/Scopes.antt =====
-- The paths that the rules with a namespace match, internal/controlplane/rbac/routeguard.go.
use minato.Prelude.{
  ◌≡◌, refl, ◌∙◌, sym, ap, ◌⊎◌, inl, inr, Bool, true, false, ◌||◌, List, [], ◌∷◌, ◌==◌, arith, All,
  codes, Bytes, bytes_eq, bytes_eq-eq, bytes_eq_refl, is_nil, length, ends_with, trim, trim_left,
  trim_right, split,
}
use minato.ControlPlane.Rules.{
  namespaced_rules, is_template, segments, match_segments, match_path, namespace_of,
}

-- The segments name a resource with a namespace, and the namespace is not empty.
abbrev pub HasNamespace : List Bytes → Type 0
HasNamespace (a ∷ b ∷ c ∷ d ∷ rest) =
    (namespace_of (a ∷ b ∷ c ∷ d ∷ rest) ≡ d)
    × (is_nil d ≡ false)
    × (bytes_eq c (codes "apikeys") ≡ false)
HasNamespace _ = ⊥

-- What a match with a namespaced pattern says of the first four segments.
four :
    (kind template a b c d : Bytes) (tail rest : List Bytes)
    → is_template template ≡ true
    → is_template kind ≡ false
    → match_segments (codes "api" ∷ codes "v1" ∷ kind ∷ template ∷ tail) (a ∷ b ∷ c ∷ d ∷ rest)
      ≡ true
    → (codes "api" ≡ a) × (kind ≡ c) × (is_nil d ≡ false)
unfolding match_segments is_template
four kind template a b c d tail rest t n h =
    (bytes_eq-eq (codes "api") a (ground arith), bytes_eq-eq kind c (ground arith), ground arith)

kind_is_resource :
    (kind : Bytes)
    → (kind ≡ codes "gameservers") ⊎ (kind ≡ codes "gameserverfleets")
    → ((bytes_eq kind (codes "gameservers") || bytes_eq kind (codes "gameserverfleets")) ≡ true)
      × (bytes_eq kind (codes "apikeys") ≡ false)
      × (is_template kind ≡ false)
unfolding bytes_eq is_template
kind_is_resource kind (inl e) = rw e (refl, refl, refl)
kind_is_resource kind (inr e) = rw e (refl, refl, refl)

abbrev is_resource : Bytes → Bool
is_resource s = bytes_eq s (codes "gameservers") || bytes_eq s (codes "gameserverfleets")

namespace_found :
    (a b c d : Bytes) (rest : List Bytes)
    → codes "api" ≡ a
    → is_resource c ≡ true
    → namespace_of (a ∷ b ∷ c ∷ d ∷ rest) ≡ d
unfolding namespace_of
namespace_found a b c d rest e r =
    ground (arith, ap (λ s. bytes_eq s (codes "api")) e, bytes_eq_refl (codes "api"))

scoped :
    (kind template : Bytes) (tail ss : List Bytes)
    → (kind ≡ codes "gameservers") ⊎ (kind ≡ codes "gameserverfleets")
    → is_template template ≡ true
    → (length (codes "api" ∷ codes "v1" ∷ kind ∷ template ∷ tail) == length ss) ≡ true
    → match_segments (codes "api" ∷ codes "v1" ∷ kind ∷ template ∷ tail) ss ≡ true
    → HasNamespace ss
scoped kind template tail [] k t l h = absurd (ground arith)
scoped kind template tail (a ∷ []) k t l h = absurd (ground arith)
scoped kind template tail (a ∷ b ∷ []) k t l h = absurd (ground arith)
scoped kind template tail (a ∷ b ∷ c ∷ []) k t l h = absurd (ground arith)
scoped kind template tail (a ∷ b ∷ c ∷ d ∷ rest) k t l h =
    let (resource, other, plain) = kind_is_resource kind k in
    let (api, same, full) = four kind template a b c d tail rest t plain h in
    (
      namespace_found a b c d rest api (ap is_resource (sym same) ∙ resource),
      full,
      ap (λ s. bytes_eq s (codes "apikeys")) (sym same) ∙ other,
    )

-- A path that matches the pattern has a namespace.
abbrev pub Scopes : Bytes → Bytes → Type 0
Scopes path pattern = match_path pattern path ≡ true → HasNamespace (segments path)

kind-Scopes :
    (kind template : Bytes) (tail : List Bytes) (pattern path : Bytes)
    → (kind ≡ codes "gameservers") ⊎ (kind ≡ codes "gameserverfleets")
    → is_template template ≡ true
    → segments pattern ≡ codes "api" ∷ codes "v1" ∷ kind ∷ template ∷ tail
    → Scopes path pattern
unfolding match_path
kind-Scopes kind template tail pattern path k t e h =
    scoped kind template tail (segments path) k t
      (ap (λ ss. length ss == length (segments path)) (sym e) ∙ ground arith)
      (ap (λ ss. match_segments ss (segments path)) (sym e) ∙ ground arith)

gameservers_scope :
    (tail : List Bytes) (pattern path : Bytes)
    → segments pattern ≡ codes "api" ∷ codes "v1" ∷ codes "gameservers" ∷ codes "{namespace}" ∷ tail
    → Scopes path pattern
unfolding is_template ends_with
gameservers_scope tail pattern path e =
    kind-Scopes (codes "gameservers") (codes "{namespace}") tail pattern path (inl refl) refl e

fleets_scope :
    (tail : List Bytes) (pattern path : Bytes)
    → segments pattern
      ≡ codes "api" ∷ codes "v1" ∷ codes "gameserverfleets" ∷ codes "{namespace}" ∷ tail
    → Scopes path pattern
unfolding is_template ends_with
fleets_scope tail pattern path e =
    kind-Scopes (codes "gameserverfleets") (codes "{namespace}") tail pattern path (inr refl) refl e

pub namespaced_rules-Scopes : (path : Bytes) → All (λ r. Scopes path r.pattern) namespaced_rules
unfolding namespaced_rules segments trim trim_left trim_right split
namespaced_rules-Scopes path = (
  gameservers_scope ([]) (codes "/api/v1/gameservers/{namespace}") path refl,
  (
    gameservers_scope (codes "{name}" ∷ []) (codes "/api/v1/gameservers/{namespace}/{name}") path
        refl,
    (
      gameservers_scope (codes "{name}" ∷ []) (codes "/api/v1/gameservers/{namespace}/{name}") path
          refl,
      (
        gameservers_scope (codes "{name}" ∷ codes "console" ∷ [])
            (codes "/api/v1/gameservers/{namespace}/{name}/console") path refl,
        (
          gameservers_scope (codes "{name}" ∷ codes "sftp" ∷ [])
              (codes "/api/v1/gameservers/{namespace}/{name}/sftp") path refl,
          (
            gameservers_scope (codes "{name}" ∷ codes "actions" ∷ codes "{action}" ∷ [])
                (codes "/api/v1/gameservers/{namespace}/{name}/actions/{action}") path refl,
            (
              gameservers_scope (codes "{name}" ∷ codes "snapshots" ∷ [])
                  (codes "/api/v1/gameservers/{namespace}/{name}/snapshots") path refl,
              (
                fleets_scope ([]) (codes "/api/v1/gameserverfleets/{namespace}") path refl,
                (
                  fleets_scope (codes "{name}" ∷ [])
                      (codes "/api/v1/gameserverfleets/{namespace}/{name}") path refl,
                  (
                    fleets_scope (codes "{name}" ∷ [])
                        (codes "/api/v1/gameserverfleets/{namespace}/{name}") path refl,
                    tt,
                  ),
                ),
              ),
            ),
          ),
        ),
      ),
    ),
  ),
)
