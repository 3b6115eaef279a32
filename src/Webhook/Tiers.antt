-- ===== src/Webhook/Tiers.antt =====
-- The names of resource tiers that are accepted, internal/webhook/gameprofile_webhook.go.
use minato.Prelude.{
  ℕ, ◌≤◌, ◌≡◌, ◌≢◌, refl, ◌↔◌, ◌⊎◌, inl, inr, Bool, true, false, not, ◌&&◌, ◌||◌, List, [], ◌∷◌,
  none, ltb, ◌==◌, String, codes, Bytes, str_eq, eq_iff, length, arith, All, Bool-cases,
  Option-cases,
}
use minato.Api.Meta.{lookup}
use minato.Api.GameProfile.{ResourcesSpec, ResourceRequirements}
use minato.Webhook.GameProfile.{
  is_alphanumeric, ends_alphanumeric, tier_name_pattern, tier_name_error, validate_tier_names,
  validate_default_tier, no_tiers, validate_resource_tiers,
}
use minato.Webhook.Checks.{Checks, or_else-Checks}

abbrev IsNameByte : ℕ → Type 0
IsNameByte c = (c ≡ b'-') ⊎ (is_alphanumeric c ≡ true)

abbrev Starts : Bytes → Type 0
Starts [] = ⊥
Starts (c ∷ s) = is_alphanumeric c ≡ true

abbrev Ends : Bytes → Type 0
Ends [] = ⊥
Ends (c ∷ []) = is_alphanumeric c ≡ true
Ends (c ∷ d ∷ s) = Ends (d ∷ s)

-- Letters, digits and dashes, at most 32, with a letter or digit first and last.
abbrev pub IsTierName : Bytes → Type 0
IsTierName s = (length s ≤ 32) × All IsNameByte s × Starts s × Ends s

ends_alphanumeric_iff : (s : Bytes) → (ends_alphanumeric s ≡ true) ↔ (All IsNameByte s × Ends s)
unfolding ends_alphanumeric
ends_alphanumeric_iff [] = (λ h. cc h, λ (a, e). absurd e)
ends_alphanumeric_iff (c ∷ []) = (λ h. ((inr h, tt), h), λ (a, e). e)
ends_alphanumeric_iff (c ∷ d ∷ s) =
    let (sound, complete) = ends_alphanumeric_iff (d ∷ s) in
    (
      (λ h. let (a, e) = sound (last h) in ((first h, a), e)),
      λ (a, e). both a.0 (complete (a.1, e)),
    )
  where
    last :
        ((c == b'-' || is_alphanumeric c) && ends_alphanumeric (d ∷ s)) ≡ true
        → ends_alphanumeric (d ∷ s) ≡ true
    last h = ground arith

    first : ((c == b'-' || is_alphanumeric c) && ends_alphanumeric (d ∷ s)) ≡ true → IsNameByte c
    first h = ground arith

    both :
        IsNameByte c
        → ends_alphanumeric (d ∷ s) ≡ true
        → ((c == b'-' || is_alphanumeric c) && ends_alphanumeric (d ∷ s)) ≡ true
    both (inl e) h = ground arith
    both (inr e) h = ground arith

pattern_iff : (s : Bytes) → (tier_name_pattern s ≡ true) ↔ (All IsNameByte s × Starts s × Ends s)
unfolding tier_name_pattern
pattern_iff [] = (λ h. cc h, λ (a, b, e). absurd b)
pattern_iff (c ∷ []) = (λ h. ((inr h, tt), h, h), λ (a, b, e). b)
pattern_iff (c ∷ d ∷ s) =
    let (sound, complete) = ends_alphanumeric_iff (d ∷ s) in
    (
      (λ h. let (a, e) = sound (last h) in ((inr (first h), a), first h, e)),
      λ (a, b, e). both b (complete (a.1, e)),
    )
  where
    last :
        (is_alphanumeric c && ends_alphanumeric (d ∷ s)) ≡ true → ends_alphanumeric (d ∷ s) ≡ true
    last h = ground arith

    first : (is_alphanumeric c && ends_alphanumeric (d ∷ s)) ≡ true → is_alphanumeric c ≡ true
    first h = ground arith

    both :
        is_alphanumeric c ≡ true
        → ends_alphanumeric (d ∷ s) ≡ true
        → (is_alphanumeric c && ends_alphanumeric (d ∷ s)) ≡ true
    both e h = ground arith

name_tests : (n : ℕ) (b : Bool) → ((ltb 32 n || not b) ≡ false) ↔ ((n ≤ 32) × (b ≡ true))
name_tests n b = (λ h. (ground arith, ground arith), λ (l, e). ground arith)

tier_name_error_iff : (s : Bytes) → (tier_name_error s ≡ false) ↔ IsTierName s
unfolding tier_name_error
tier_name_error_iff s =
    let (sound, complete) = name_tests (length s) (tier_name_pattern s) in
    (
      (λ h. let (l, e) = sound h in let (a, b, c) = (pattern_iff s).0 e in (l, a, b, c)),
      λ (l, a, b, c). complete (l, (pattern_iff s).1 (a, b, c)),
    )

abbrev pub IsTier : String × ResourceRequirements → Type 0
IsTier (name, r) = IsTierName (codes name)

validate_tier_names-Checks :
    (tiers : List (String × ResourceRequirements))
    → Checks (validate_tier_names tiers) (All IsTier tiers)
unfolding validate_tier_names
validate_tier_names-Checks [] = (λ h. tt, λ h. refl)
validate_tier_names-Checks ((name, r) ∷ tiers) = elim (Bool-cases (tier_name_error (codes name))) [
  | inl bad ↦ (
    λ h. absurd (cc (rw bad at h)),
    λ (a, as'). absurd (cc ((tier_name_error_iff (codes name)).1 a)),
  )
  | inr good ↦ (
    λ h. (
      (tier_name_error_iff (codes name)).0 good,
      (validate_tier_names-Checks tiers).0 (rw good at h),
    ),
    λ (a, as'). rw good ((validate_tier_names-Checks tiers).1 as'),
  )
]

-- Without tiers there is no default; with tiers their names are legal and the default is one of them.
abbrev pub HasTiers : ResourcesSpec → Type 0
HasTiers s =
    ((no_tiers s.tiers ≡ true) × (s.default ≡ ""))
    ⊎ ((no_tiers s.tiers ≡ false)
        × All IsTier s.tiers
        × (◌≢◌ {A = String} s.default "")
        × (lookup s.default s.tiers ≢ none))

default_tier-Checks :
    (s : ResourcesSpec)
    → Checks
        (validate_default_tier s)
        ((◌≢◌ {A = String} s.default "") × (lookup s.default s.tiers ≢ none))
unfolding validate_default_tier
default_tier-Checks s = elim (Bool-cases (str_eq s.default "")) [
  | inl e ↦ (λ h. absurd (cc (rw e at h)), λ (n, l). absurd (n ((eq_iff s.default "").0 e)))
  | inr e ↦ elim (Option-cases (lookup s.default s.tiers)) [
    | inl missing ↦ (λ h. absurd (cc (rw (e, missing) at h)), λ (n, l). absurd (l missing))
    | inr (r, there) ↦ (
      (λ h. ((λ d. cc (e, (eq_iff s.default "").1 d)), λ m. cc (m, there))),
      λ (n, l). rw (e, there) refl,
    )
  ]
]

pub resource_tiers-Checks : (s : ResourcesSpec) → Checks (validate_resource_tiers s) (HasTiers s)
unfolding validate_resource_tiers
resource_tiers-Checks s = elim (Bool-cases (no_tiers s.tiers)) [
  | inl empty ↦ elim (Bool-cases (str_eq s.default "")) [
    | inl d ↦ ((λ h. inl (empty, (eq_iff s.default "").0 d)), λ h. rw (empty, d) refl)
    | inr d ↦ (
      (λ h. absurd (cc (rw (empty, d) at h))),
      λ h. elim h [
        | inl (e, n) ↦ absurd (cc (d, (eq_iff s.default "").1 n))
        | inr (e, a, n, l) ↦ absurd (cc (e, empty))
      ],
    )
  ]
  | inr some_tiers ↦
      let (sound, complete) =
        or_else-Checks (validate_tier_names s.tiers) (validate_default_tier s)
          (validate_tier_names-Checks s.tiers) (default_tier-Checks s) in
      (
        (λ h. let (a, d) = sound (rw some_tiers at h) in inr (some_tiers, a, d.0, d.1)),
        λ h. elim h [
          | inl (e, n) ↦ absurd (cc (e, some_tiers))
          | inr (e, a, n, l) ↦ rw some_tiers (complete (a, (n, l)))
        ],
      )
]
