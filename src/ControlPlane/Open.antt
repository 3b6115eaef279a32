-- ===== src/ControlPlane/Open.antt =====
-- When a chain of providers lets everyone in, BuildChainWithStorage of
-- internal/controlplane/auth/auth.go.
use minato.Prelude.{
  some_injective, ◌≡◌, ◌≢◌, refl, sym, ap, ◌∙◌, ◌⊎◌, inl, inr, ◌↔◌, Bool, true, false, ◌&&◌, Option,
  none, some, Option-cases, Bool-cases, List, [], ◌∷◌, if◌then◌else◌, codes, Bytes, bytes_eq,
  bytes_eq-eq, bytes_eq_refl, All, Any, subst, trim_space, to_lower, split,
}
use minato.ControlPlane.Namespaces.{comma}
use minato.ControlPlane.Oidc.{OidcProvider, new_oidc_provider}
use minato.ControlPlane.Providers.{
  basic, BasicProvider, Provider, none_provider, oidc, api_key_provider, Libraries,
  new_basic_provider,
}
use minato.ControlPlane.Chain.{
  AuthConfig, Added, nothing, adds, refuses, add_basic, add_oidc, add_mode, onto_chain, add_modes,
  or_none_provider, build_chain,
}

-- A mode as the switch sees it.
abbrev pub normal : Bytes → Bytes
normal mode = trim_space (to_lower mode)

abbrev pub IsNone : Provider → Type 0
IsNone p = p ≡ none_provider

Added-cases : (a : Added) → (a ≡ nothing) ⊎ ((p : Provider) × (a ≡ adds p)) ⊎ (a ≡ refuses)
Added-cases nothing = inl refl
Added-cases (adds p) = inr (inl (p, refl))
Added-cases refuses = inr (inr refl)

basic_other :
    (b : Bool) (o : Option BasicProvider)
    → (if b then elim o [ none ↦ refuses | some p ↦ adds (basic p) ] else nothing)
      ≢ adds none_provider
basic_other true none h = cc h
basic_other true (some p) h = cc h
basic_other false o h = cc h

oidc_other :
    (b : Bool) (o : Option OidcProvider)
    → (if b then elim o [ none ↦ refuses | some p ↦ adds (oidc p) ] else nothing)
      ≢ adds none_provider
oidc_other true none h = cc h
oidc_other true (some p) h = cc h
oidc_other false o h = cc h

mode_other :
    (a b c k : Bool) (x y : Added)
    → x ≢ adds none_provider
    → y ≢ adds none_provider
    → (if a
        then x
        else if b
        then y
        else if c
        then (if k then adds api_key_provider else nothing)
        else nothing)
      ≢ adds none_provider
mode_other true b c k x y p q h = p h
mode_other false true c k x y p q h = q h
mode_other false false true true x y p q h = cc h
mode_other false false true false x y p q h = cc h
mode_other false false false k x y p q h = cc h

adds_injective : (p : Provider) → adds p ≡ adds none_provider → p ≡ none_provider
adds_injective p e = ap (λ a. elim a [ adds q ↦ q | nothing ↦ p | refuses ↦ p ]) e

module _ (l : Libraries) (cfg : AuthConfig) where
  add_basic_other : add_basic l cfg ≢ adds none_provider
  unfolding add_basic
  add_basic_other = basic_other cfg.basic.enabled (new_basic_provider l cfg.basic)

  add_oidc_other : add_oidc l cfg ≢ adds none_provider
  unfolding add_oidc
  add_oidc_other = oidc_other cfg.oidc.enabled (new_oidc_provider l.openid cfg.oidc)

  add_mode_none :
      (mode : Bytes) → (add_mode l cfg mode ≡ adds none_provider) ↔ (mode ≡ codes "none")
  unfolding add_mode
  add_mode_none mode = elim (Bool-cases (bytes_eq mode (codes "none"))) [
    | inl e ↦ ((λ h. bytes_eq-eq mode (codes "none") e), λ h. rw (add_mode, e) refl)
    | inr n ↦ (
      (λ h. absurd (
          mode_other (bytes_eq mode (codes "basic")) (bytes_eq mode (codes "oidc"))
            (bytes_eq mode (codes "apikey")) (cfg.api_key_enabled && cfg.has_key_storage)
            (add_basic l cfg) (add_oidc l cfg) add_basic_other add_oidc_other
            (rw (add_mode, n) at h))),
      λ h. absurd (cc (n, ap (λ s. bytes_eq s (codes "none")) h, bytes_eq_refl (codes "none"))),
    )
  ]

  -- A mode of the list is `none`.
  abbrev pub NamesNone : List Bytes → Type 0
  NamesNone modes = Any (λ m. normal m ≡ codes "none") modes

  -- No mode of the list adds a provider.
  abbrev pub AddsNothing : List Bytes → Type 0
  AddsNothing modes = All (λ m. add_mode l cfg (normal m) ≡ nothing) modes

  add_modes_step :
      (m : Bytes) (ms : List Bytes) (ps : List Provider)
      → add_modes l cfg (m ∷ ms) ≡ some ps
      → ((add_mode l cfg (normal m) ≡ nothing) × (add_modes l cfg ms ≡ some ps))
        ⊎ ((p : Provider) × (qs : List Provider) × (add_mode l cfg (normal m) ≡ adds p)
            × (add_modes l cfg ms ≡ some qs)
            × (ps ≡ p ∷ qs))
  unfolding add_modes
  add_modes_step m ms ps h = elim (Added-cases (add_mode l cfg (normal m))) [
    | inl e ↦ inl (e, rw e at h)
    | inr (inr e) ↦ absurd (cc (rw e at h))
    | inr (inl (p, e)) ↦ elim (Option-cases (add_modes l cfg ms)) [
      | inl f ↦
          absurd (
            cc
              (ap (onto_chain (adds p)) f, sym (ap (λ a. onto_chain a (add_modes l cfg ms)) e) ∙ h))
      | inr (qs, f) ↦ inr (
        p,
        qs,
        e,
        f,
        sym (
            some_injective (
              sym (ap (λ a. onto_chain a (add_modes l cfg ms)) e ∙ ap (onto_chain (adds p)) f)
              ∙ h)),
      )
    ]
  ]

  add_modes_open :
      (ms : List Bytes) (ps : List Provider)
      → add_modes l cfg ms ≡ some ps
      → Any IsNone ps ↔ NamesNone ms
  unfolding add_modes
  add_modes_open [] [] h = ((λ a. a), λ a. a)
  add_modes_open [] (p ∷ ps) h = absurd (cc h)
  add_modes_open (m ∷ ms) ps h = elim (add_modes_step m ms ps h) [
    | inl (e, f) ↦
        let (sound, complete) = add_modes_open ms ps f in
        (
          (λ a. inr (sound a)),
          λ a. elim a [
            | inl n ↦ absurd (cc (e, (add_mode_none (normal m)).1 n))
            | inr b ↦ complete b
          ],
        )
    | inr (p, qs, e, f, g) ↦
        let (sound, complete) = add_modes_open ms qs f in
        rw g (
          (λ a. elim a [
            | inl n ↦ inl ((add_mode_none (normal m)).0 (e ∙ ap adds n))
            | inr b ↦ inr (sound b)
          ]),
          λ a. elim a [
            | inl n ↦ inl (adds_injective p (sym e ∙ (add_mode_none (normal m)).1 n))
            | inr b ↦ inr (complete b)
          ],
        )
  ]

  add_modes_nothing : (ms : List Bytes) → (add_modes l cfg ms ≡ some []) ↔ AddsNothing ms
  unfolding add_modes
  add_modes_nothing [] = ((λ h. tt), λ h. refl)
  add_modes_nothing (m ∷ ms) = (
    (λ h. elim (add_modes_step m ms [] h) [
      | inl (e, f) ↦ (e, (add_modes_nothing ms).0 f)
      | inr (p, qs, e, f, g) ↦ absurd (cc g)
    ]),
    λ (e, f). ap (λ a. onto_chain a (add_modes l cfg ms)) e ∙ (add_modes_nothing ms).1 f,
  )

  -- The provider that lets everyone in stands in the chain of `qs`.
  open_chain :
      (modes : List Bytes) (qs : List Provider)
      → add_modes l cfg modes ≡ some qs
      → Any IsNone (or_none_provider qs) ↔ (NamesNone modes ⊎ AddsNothing modes)
  unfolding or_none_provider
  open_chain modes [] e = ((λ a. inr ((add_modes_nothing modes).0 e)), λ a. inl refl)
  open_chain modes (q ∷ qs) e = (
    (λ a. inl ((add_modes_open modes (q ∷ qs) e).0 a)),
    λ a. elim a [
      | inl n ↦ (add_modes_open modes (q ∷ qs) e).1 n
      | inr n ↦ absurd (cc (e, (add_modes_nothing modes).1 n))
    ],
  )

  -- A chain that was built contains the provider that lets everyone in as an admin exactly when a mode
  -- is `none`, or no mode adds a provider: also when the modes that are named are not enabled.
  pub build_chain-open :
      (ps : List Provider)
      → build_chain l cfg ≡ some ps
      → Any IsNone ps ↔ (NamesNone (split comma cfg.mode) ⊎ AddsNothing (split comma cfg.mode))
  unfolding build_chain
  build_chain-open ps h = elim (Option-cases (add_modes l cfg (split comma cfg.mode))) [
    | inl e ↦ absurd (cc (rw (build_chain, e) at h))
    | inr (qs, e) ↦
        subst
          (λ s.
            Any IsNone s ↔ (NamesNone (split comma cfg.mode) ⊎ AddsNothing (split comma cfg.mode)))
          (some_injective (rw (build_chain, e) at h)) (open_chain (split comma cfg.mode) qs e)
  ]
