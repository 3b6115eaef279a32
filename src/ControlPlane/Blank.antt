-- ===== src/ControlPlane/Blank.antt =====
-- What becomes of a namespaces text of blanks and commas, internal/controlplane/auth/storage.go.
use minato.Prelude.{
  ℕ, ◌≡◌, refl, ap, ◌∙◌, true, false, Bool-cases, List, [], ◌∷◌, Bytes, is_nil, split, trim_space,
  All, arith, ◌==◌, ◌⊎◌, inl, inr, onto_first, is_space, trim_space_left, trim_space_right,
}
use minato.ControlPlane.Namespaces.{User, comma, parse_namespaces, non_empty_parts, cluster_wide}
use minato.ControlPlane.Providers.{user_of}
use minato.ControlPlane.Keys.{
  ApiKeyEntry, Secret, Expiry, unset, instant, malformed, with_namespaces, with_expiry, from_secret,
}

abbrev IsSpace : ℕ → Type 0
IsSpace c = is_space c ≡ true

-- A comma or a blank.
abbrev pub IsBlank : ℕ → Type 0
IsBlank c = (c ≡ comma) ⊎ IsSpace c

onto_first-spaces :
    (c : ℕ) (parts : List Bytes)
    → IsSpace c
    → All (All IsSpace) parts
    → All (All IsSpace) (onto_first c parts)
onto_first-spaces c [] s h = ((s, tt), tt)
onto_first-spaces c (p ∷ ps) s h = ((s, h.0), h.1)

split-spaces : (s : Bytes) → All IsBlank s → All (All IsSpace) (split comma s)
unfolding split
split-spaces [] h = (tt, tt)
split-spaces (c ∷ s) (b, h) = elim (Bool-cases (c == comma)) [
  | inl e ↦ rw e (tt, split-spaces s h)
  | inr n ↦ rw n (elim b [
    | inl e ↦ absurd (ground (arith, e, n))
    | inr sp ↦ onto_first-spaces c (split comma s) sp (split-spaces s h)
  ])
]

trim_space_left-spaces : (s : Bytes) → All IsSpace s → trim_space_left s ≡ []
unfolding trim_space_left
trim_space_left-spaces [] h = refl
trim_space_left-spaces (c ∷ s) (e, h) = rw (e, trim_space_left-spaces s h) refl

trim_space-spaces : (s : Bytes) → All IsSpace s → trim_space s ≡ []
unfolding trim_space
trim_space-spaces s h = ap trim_space_right (trim_space_left-spaces s h)

non_empty_spaces : (parts : List Bytes) → All (All IsSpace) parts → non_empty_parts parts ≡ []
unfolding non_empty_parts
non_empty_spaces [] h = refl
non_empty_spaces (p ∷ ps) (s, h) = rw (trim_space-spaces p s, non_empty_spaces ps h) refl

with_expiry_keeps :
    (x : Expiry) (entry : ApiKeyEntry) → (with_expiry x entry).namespaces ≡ entry.namespaces
unfolding with_expiry
with_expiry_keeps unset entry = refl
with_expiry_keeps (instant t) entry = refl
with_expiry_keeps malformed entry = refl

with_namespaces_blank :
    (v : Bytes) (entry : ApiKeyEntry)
    → is_nil v ≡ false
    → All IsBlank v
    → (with_namespaces v entry).namespaces ≡ []
unfolding with_namespaces parse_namespaces
with_namespaces_blank v entry full blank =
    rw full (non_empty_spaces (split comma v) (split-spaces v blank))

unrestricted : (u : User) → u.namespaces ≡ [] → cluster_wide u ≡ true
unfolding cluster_wide
unrestricted u e = rw e refl

-- A Secret whose namespaces are a text of commas and blanks only, which is not empty, makes a key
-- without any restriction to namespaces, whatever its metadata say.
pub blank_namespaces-cluster_wide :
    (secret : Secret)
    → is_nil secret.namespaces ≡ false
    → All IsBlank secret.namespaces
    → cluster_wide (user_of (from_secret secret)) ≡ true
unfolding user_of from_secret
blank_namespaces-cluster_wide secret full blank =
    unrestricted (user_of (from_secret secret))
      (with_expiry_keeps secret.expires_at _ ∙ with_namespaces_blank secret.namespaces _ full blank)
