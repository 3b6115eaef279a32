-- ===== src/ControlPlane/Namespaces.antt =====
-- The users of the control plane and the namespaces that they may access,
-- internal/controlplane/auth/namespace.go and auth.go.
use minato.Prelude.{
  ℕ, ◌≡◌, refl, ◌↔◌, ◌⊎◌, inl, inr, String, Bool, true, false, ◌||◌, List, [], ◌∷◌, ◌++◌, ap, ◌∙◌,
  arith, Bool-cases, if◌then◌else◌, Bytes, bytes_eq, bytes_eq-eq, bytes_eq_refl, has_prefix,
  ends_with, but_last, is_nil, trim_space, split,
}

-- The byte of `*`.
abbrev pub star : ℕ
star = 42

-- The byte of `,`.
abbrev pub comma : ℕ
comma = 44

pub record User : Type 0 where
  pub id : String
  pub username : String
  pub email : String
  pub role : String
  pub source : String
  pub namespaces : List Bytes

unfoldable pub match_namespace_pattern : Bytes → Bytes → Bool
match_namespace_pattern pattern ns =
    if bytes_eq pattern (star ∷ [])
    then true
    else if ends_with pattern star
    then has_prefix ns (but_last pattern)
    else bytes_eq pattern ns

unfoldable pub match_any_namespace : List Bytes → Bytes → Bool
match_any_namespace [] ns = false
match_any_namespace (p ∷ ps) ns =
    let rest = match_any_namespace ps ns in if match_namespace_pattern p ns then true else rest

unfoldable pub non_empty_parts : List Bytes → List Bytes
non_empty_parts [] = []
non_empty_parts (part ∷ parts) =
    let rest = non_empty_parts parts in
    if is_nil (trim_space part) then rest else trim_space part ∷ rest

-- A list of patterns between commas.
unfoldable pub parse_namespaces : Bytes → List Bytes
unfolding non_empty_parts
parse_namespaces s = non_empty_parts (split comma s)

abbrev no_entries : List Bytes → Bool
no_entries [] = true
no_entries (p ∷ ps) = false

-- No restriction to namespaces. A user that is missing has none either; both guards test that before.
unfoldable pub cluster_wide : User → Bool
cluster_wide u = no_entries u.namespaces

unfoldable pub allows_namespace : User → Bytes → Bool
unfolding cluster_wide match_any_namespace
allows_namespace u ns = cluster_wide u || match_any_namespace u.namespaces ns

-- What a pattern stands for: the namespace itself, or every one that begins with the text before the
-- star.
abbrev pub Stands : Bytes → Bytes → Type 0
Stands pattern ns =
    (pattern ≡ ns)
    ⊎ ((stem : Bytes) × (rest : Bytes) × (pattern ≡ stem ++ star ∷ []) × (ns ≡ stem ++ rest))

has_prefix-splits : (s p : Bytes) → has_prefix s p ≡ true → (rest : Bytes) × (s ≡ p ++ rest)
unfolding has_prefix
has_prefix-splits s [] h = (s, refl)
has_prefix-splits [] (c ∷ p) h = absurd (ground arith)
has_prefix-splits (d ∷ s) (c ∷ p) h =
    let (rest, e) = has_prefix-splits s p (ground arith) in (rest, ground arith)

has_prefix_append : (p rest : Bytes) → has_prefix (p ++ rest) p ≡ true
unfolding has_prefix
has_prefix_append [] rest = refl
has_prefix_append (c ∷ p) rest = ground (arith, has_prefix_append p rest)

ends_with-but_last : (s : Bytes) (c : ℕ) → ends_with s c ≡ true → s ≡ but_last s ++ c ∷ []
unfolding ends_with but_last
ends_with-but_last [] c h = absurd (ground arith)
ends_with-but_last (d ∷ []) c h = ground arith
ends_with-but_last (d ∷ e ∷ s) c h = ap (λ l. d ∷ l) (ends_with-but_last (e ∷ s) c h)

ends_with_append : (s : Bytes) (c : ℕ) → ends_with (s ++ c ∷ []) c ≡ true
unfolding ends_with
ends_with_append [] c = ground arith
ends_with_append (d ∷ []) c = ground arith
ends_with_append (d ∷ e ∷ s) c = ends_with_append (e ∷ s) c

but_last_append : (s : Bytes) (c : ℕ) → but_last (s ++ c ∷ []) ≡ s
unfolding but_last
but_last_append [] c = refl
but_last_append (d ∷ []) c = refl
but_last_append (d ∷ e ∷ s) c = ap (λ l. d ∷ l) (but_last_append (e ∷ s) c)

lone_star : (ns : Bytes) → has_prefix ns (but_last (star ∷ [])) ≡ true
unfolding has_prefix but_last
lone_star [] = refl
lone_star (c ∷ ns) = refl

lone_star_ends : ends_with (star ∷ []) star ≡ true
unfolding ends_with
lone_star_ends = refl

-- A namespace that has no star in it, as those of Kubernetes, matches a pattern exactly when the
-- pattern stands for it.
match_namespace_pattern-Stands :
    (pattern ns : Bytes)
    → ends_with ns star ≡ false
    → (match_namespace_pattern pattern ns ≡ true) ↔ Stands pattern ns
unfolding match_namespace_pattern
match_namespace_pattern-Stands pattern ns plain = (sound, complete)
  where
    starred : bytes_eq pattern (star ∷ []) ≡ true → pattern ≡ star ∷ []
    starred same = bytes_eq-eq pattern (star ∷ []) same

    prefix :
        match_namespace_pattern pattern ns ≡ true
        → ends_with pattern star ≡ true
        → has_prefix ns (but_last pattern) ≡ true
    prefix h glob = elim (Bool-cases (bytes_eq pattern (star ∷ []))) [
      | inl same ↦ ap (λ s. has_prefix ns (but_last s)) (starred same) ∙ lone_star ns
      | inr other ↦ ground arith
    ]

    equal :
        match_namespace_pattern pattern ns ≡ true → ends_with pattern star ≡ false → pattern ≡ ns
    equal h exact = elim (Bool-cases (bytes_eq pattern (star ∷ []))) [
      | inl same ↦
          absurd (ground (arith, ap (λ s. ends_with s star) (starred same), lone_star_ends))
      | inr other ↦ bytes_eq-eq pattern ns (ground arith)
    ]

    sound : match_namespace_pattern pattern ns ≡ true → Stands pattern ns
    sound h = elim (Bool-cases (ends_with pattern star)) [
      | inl glob ↦
          let split : has_prefix ns (but_last pattern) ≡ true = prefix h glob in
          let (rest, e) = has_prefix-splits ns (but_last pattern) split in
          inr (but_last pattern, rest, ends_with-but_last pattern star glob, e)
      | inr exact ↦ inl (equal h exact)
    ]

    complete : Stands pattern ns → match_namespace_pattern pattern ns ≡ true
    complete (inl e) =
        ground (arith, ap (λ s. ends_with s star) e, ap (λ s. bytes_eq s ns) e, bytes_eq_refl ns)
    complete (inr (stem, rest, e, f)) = ground (
      arith,
      ap (λ s. ends_with s star) e,
      ends_with_append stem star,
      ap but_last e,
      but_last_append stem star,
      ap (λ s. has_prefix s stem) f,
      has_prefix_append stem rest,
      ap (has_prefix ns) (ap but_last e ∙ but_last_append stem star),
    )
