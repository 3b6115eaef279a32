-- ===== src/Webhook/Accepted.antt =====
-- What the webhooks accept, internal/webhook.
use minato.Prelude.{
  ◌≡◌, ◌≢◌, refl, ◌↔◌, ◌⊎◌, inl, inr, Bool, true, false, Option, none, some, if◌then◌else◌, pos,
  ltb_ℤ, String, str_eq, eq_iff, All, Bool-cases,
}
use minato.Api.GameProfile.{GameProfile, StorageSpec}
use minato.Webhook.GameProfile.{
  Parsed, quantity, invalid, Quantities, or_else, validate_min, validate_max, validate_range,
  validate_storage_sizes, validate_game_profile,
}
use minato.Webhook.Checks.{
  Checks, or_else-Checks, required-Checks, IsPortSpec, validate_ports-Checks,
}
use minato.Webhook.Tiers.{HasTiers, resource_tiers-Checks}

or_else-none : (a b : Option String) → or_else a b ≡ none → (a ≡ none) × (b ≡ none)
or_else-none none b h = (refl, h)
or_else-none (some e) b h = absurd (cc h)

or_else_of_none : (a b : Option String) → a ≡ none → b ≡ none → or_else a b ≡ none
or_else_of_none a b p q = rw (p, q) refl

module _ (k : Quantities) where
  open k use {Quantity, parse, cmp}

  -- The text is empty, or it is a quantity with the property.
  abbrev pub Meets : String → (Quantity → Type 0) → Type 0
  Meets v P = (v ≡ "") ⊎ ((q : Quantity) × (parse v ≡ quantity q) × P q)

  Parsed-cases :
      (v : String)
      → ((q : Quantity) × (parse v ≡ quantity q)) ⊎ ((e : String) × (parse v ≡ invalid e))
  Parsed-cases v = of (parse v)
    where
      of :
          (p : Parsed Quantity)
          → ((q : Quantity) × (p ≡ quantity q)) ⊎ ((e : String) × (p ≡ invalid e))
      of (quantity q) = inl (q, refl)
      of (invalid e) = inr (e, refl)

  optional-Checks :
      (v : String) (check : Option String) (P : Quantity → Type 0)
      → (str_eq v "" ≡ true → check ≡ none)
      → ((q : Quantity) → str_eq v "" ≡ false → parse v ≡ quantity q → Checks check (P q))
      → ((e : String) → str_eq v "" ≡ false → parse v ≡ invalid e → check ≢ none)
      → Checks check (Meets v P)
  optional-Checks v check P empty full bad = elim (Bool-cases (str_eq v "")) [
    | inl e ↦ ((λ h. inl ((eq_iff v "").0 e)), λ h. empty e)
    | inr n ↦ (
      (λ h. elim (Parsed-cases v) [
        | inl (q, p) ↦ inr (q, p, (full q n p).0 h)
        | inr (x, p) ↦ absurd (bad x n p h)
      ]),
      λ h. elim h [ inl e ↦ absurd (cc (n, (eq_iff v "").1 e)) | inr (q, p, m) ↦ (full q n p).1 m ],
    )
  ]

  -- `a` is not above `b`.
  abbrev IsAtMost : Quantity → Quantity → Type 0
  IsAtMost a b = ltb_ℤ (pos 0) (cmp a b) ≡ false

  abbrev IsAtLeast : Quantity → Quantity → Type 0
  IsAtLeast a b = ltb_ℤ (cmp a b) (pos 0) ≡ false

  test-Checks : (b : Bool) (e : String) → Checks (if b then some e else none) (b ≡ false)
  test-Checks true e = ((λ h. absurd (cc h)), λ h. absurd (cc h))
  test-Checks false e = ((λ h. refl), λ h. refl)

  guarded-Checks :
      {P : Type 0} (b : Bool) (e : String) (rest : Option String)
      → Checks rest P
      → Checks (if b then some e else rest) ((b ≡ false) × P)
  guarded-Checks true e rest c = ((λ h. absurd (cc h)), λ (h, x). absurd (cc h))
  guarded-Checks false e rest c = ((λ h. (refl, c.0 h)), λ (h, x). c.1 x)

  min-Checks :
      (size : Quantity) (s : StorageSpec)
      → Checks (validate_min k size s) (Meets s.size_min (IsAtLeast size))
  unfolding validate_min
  min-Checks size s =
      optional-Checks s.size_min (validate_min k size s) (IsAtLeast size) (λ e. rw e refl)
        (λ q n p. rw (n, p) (test-Checks (ltb_ℤ (cmp size q) (pos 0)) _))
        (λ x n p h. cc (rw (n, p) at h))

  range-Checks :
      (greatest : Quantity) (s : StorageSpec) (P : Quantity → Type 0)
      → Meets s.size_min P
      → Checks (validate_range k greatest s) (Meets s.size_min (λ least. IsAtMost least greatest))
  unfolding validate_range
  range-Checks greatest s P m =
      optional-Checks s.size_min (validate_range k greatest s) (λ least. IsAtMost least greatest)
        (λ e. rw e refl) (λ q n p. rw (n, p) (test-Checks (ltb_ℤ (pos 0) (cmp q greatest)) _))
        (λ x n p h. elim m [
          | inl e ↦ absurd (cc (n, (eq_iff s.size_min "").1 e))
          | inr (q, f, g) ↦ absurd (cc (p, f))
        ])

  -- The size is at most the greatest one, and so is the least one.
  abbrev IsInRange : Quantity → StorageSpec → Quantity → Type 0
  IsInRange size s greatest =
      IsAtMost size greatest × Meets s.size_min (λ least. IsAtMost least greatest)

  max-Checks :
      (size : Quantity) (s : StorageSpec) (P : Quantity → Type 0)
      → Meets s.size_min P
      → Checks (validate_max k size s) (Meets s.size_max (IsInRange size s))
  unfolding validate_max
  max-Checks size s P m =
      optional-Checks s.size_max (validate_max k size s) (IsInRange size s) (λ e. rw e refl)
        (λ q n p. rw (n, p) (guarded-Checks _ _ (validate_range k q s) (range-Checks q s P m)))
        (λ x n p h. cc (rw (n, p) at h))

  -- The default size is a quantity, and the least and the greatest size, where they are given, are
  -- quantities around it, in order.
  abbrev pub HasSizes : StorageSpec → Type 0
  HasSizes s =
      (size : Quantity) × (parse s.size_default ≡ quantity size)
      × Meets s.size_min (IsAtLeast size)
      × Meets s.size_max (IsInRange size s)

  storage-Checks : (s : StorageSpec) → Checks (validate_storage_sizes k s) (HasSizes s)
  unfolding validate_storage_sizes
  storage-Checks s = elim (Parsed-cases s.size_default) [
    | inr (x, p) ↦ (
      (λ h. absurd (cc (rw (validate_storage_sizes, p) at h))),
      λ (size, q, least, greatest). absurd (cc (p, q)),
    )
    | inl (size, p) ↦ (
      (λ h.
          let (a, b) =
            or_else-none (validate_min k size s) (validate_max k size s)
              (rw (validate_storage_sizes, p) at h) in
          let least = (min-Checks size s).0 a in
          (size, p, least, (max-Checks size s (IsAtLeast size) least).0 b)),
      λ (other, q, least, greatest).
          rw (validate_storage_sizes, q)
            (or_else_of_none (validate_min k other s) (validate_max k other s)
              ((min-Checks other s).1 least)
              ((max-Checks other s (IsAtLeast other) least).1 greatest)),
    )
  ]

  -- What the webhook demands of a profile.
  pub record IsAccepted (profile : GameProfile) : Type 0 where
    pub image : ◌≢◌ {A = String} profile.spec.image ""
    pub display_name : ◌≢◌ {A = String} profile.spec.display_name ""
    pub mount_path : ◌≢◌ {A = String} profile.spec.storage.mount_path ""
    pub size_default : ◌≢◌ {A = String} profile.spec.storage.size_default ""
    pub agent_image : ◌≢◌ {A = String} profile.spec.agent.image ""
    pub ports : All IsPortSpec profile.spec.ports
    pub tiers : HasTiers profile.spec.resources
    pub sizes : HasSizes profile.spec.storage

  profile-Checks :
      (profile : GameProfile)
      → Checks (validate_game_profile k profile) (
          (◌≢◌ {A = String} profile.spec.image "")
          × ((◌≢◌ {A = String} profile.spec.display_name "")
              × ((◌≢◌ {A = String} profile.spec.storage.mount_path "")
                  × ((◌≢◌ {A = String} profile.spec.storage.size_default "")
                      × ((◌≢◌ {A = String} profile.spec.agent.image "")
                          × (All IsPortSpec profile.spec.ports
                              × (HasTiers profile.spec.resources
                                  × HasSizes profile.spec.storage)))))))
  unfolding validate_game_profile
  profile-Checks profile = or_else-Checks _ _ (required-Checks profile.spec.image _) (
      or_else-Checks _ _ (required-Checks profile.spec.display_name _) (
        or_else-Checks _ _ (required-Checks profile.spec.storage.mount_path _) (
          or_else-Checks _ _ (required-Checks profile.spec.storage.size_default _) (
            or_else-Checks _ _ (required-Checks profile.spec.agent.image _) (
              or_else-Checks _ _ (validate_ports-Checks 0 profile.spec.ports) (
                or_else-Checks _ _ (resource_tiers-Checks profile.spec.resources)
                  (storage-Checks profile.spec.storage)))))))

  -- The webhook admits a game profile exactly when its required fields are there, its ports have names
  -- and lie between 1 and 65535, its tiers have legal names and a default among them, and its storage
  -- sizes are quantities in order.
  pub validate_game_profile-IsAccepted :
      (profile : GameProfile) → (validate_game_profile k profile ≡ none) ↔ IsAccepted profile
  validate_game_profile-IsAccepted profile = (
    (λ h.
        let (a, (b, (c, (d, (e, (f, (g, i))))))) = (profile-Checks profile).0 h in
        record {
          image = a;
          display_name = b;
          mount_path = c;
          size_default = d;
          agent_image = e;
          ports = f;
          tiers = g;
          sizes = i;
        }),
    λ v. (profile-Checks profile).1 (
      v.image,
      (
        v.display_name,
        (v.mount_path, (v.size_default, (v.agent_image, (v.ports, (v.tiers, v.sizes))))),
      ),
    ),
  )
