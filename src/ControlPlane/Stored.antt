-- ===== src/ControlPlane/Stored.antt =====
-- What a Secret keeps of an API key, internal/controlplane/auth/storage.go.
use minato.Prelude.{
  some_injective, ℕ, ◌≡◌, ◌≢◌, refl, sym, ap, ◌∙◌, false, Option, none, some, Bool-cases, List, [],
  ◌∷◌, ◌++◌, Bytes, bytes_eq, bytes_eq-eq, is_nil, join, split, trim_space, All, arith, Memᴰ, inl,
  inr, or_empty_bytes, cut_prefix,
}
use minato.Cluster.{ok, Outcome-cases}
use minato.ControlPlane.Namespaces.{comma, parse_namespaces, non_empty_parts}
use minato.ControlPlane.Keys.{
  ApiKeyEntry, Secret, to_seconds, format_expiry, to_secret, trim_prefix, with_key, with_name,
  with_namespaces, with_expiry, from_secret, expired, find_key, KeyStore, get_key,
  api_key_secret_prefix,
}

-- A pattern that is not empty, has no comma and no blank at its ends.
abbrev pub IsPattern : Bytes → Type 0
IsPattern s = (is_nil s ≡ false) × All (λ c. c ≢ comma) s × (trim_space s ≡ s)

split_alone : (s : Bytes) → All (λ c. c ≢ comma) s → split comma s ≡ s ∷ []
unfolding split
split_alone [] h = refl
split_alone (c ∷ s) h = ground (arith, h.0, split_alone s h.1)

split-append :
    (s rest : Bytes)
    → All (λ c. c ≢ comma) s
    → split comma (s ++ comma ∷ rest) ≡ s ∷ split comma rest
unfolding split
split-append [] rest h = refl
split-append (c ∷ s) rest h = ground (arith, h.0, split-append s rest h.1)

split-join :
    (n : Bytes) (ns : List Bytes)
    → All IsPattern (n ∷ ns)
    → split comma (join comma (n ∷ ns)) ≡ n ∷ ns
unfolding join
split-join n [] (p, q) = split_alone n p.1
split-join n (m ∷ ns) (p, q) =
    split-append n (join comma (m ∷ ns)) p.1 ∙ ap (λ l. n ∷ l) (split-join m ns q)

non_empty_patterns : (ns : List Bytes) → All IsPattern ns → non_empty_parts ns ≡ ns
unfolding non_empty_parts
non_empty_patterns [] h = refl
non_empty_patterns (n ∷ ns) ((full, c, e), q) = rw (e, full, non_empty_patterns ns q) refl

parse_namespaces-join :
    (n : Bytes) (ns : List Bytes)
    → All IsPattern (n ∷ ns)
    → parse_namespaces (join comma (n ∷ ns)) ≡ n ∷ ns
unfolding parse_namespaces
parse_namespaces-join n ns h = rw (split-join n ns h) (non_empty_patterns (n ∷ ns) h)

join-nil :
    (n : Bytes) (ns : List Bytes) → All IsPattern (n ∷ ns) → is_nil (join comma (n ∷ ns)) ≡ false
unfolding join
join-nil n [] h = h.0.0
join-nil [] (m ∷ ns) h = refl
join-nil (c ∷ n) (m ∷ ns) h = refl

with_namespaces-join :
    (ns : List Bytes) (entry : ApiKeyEntry)
    → All IsPattern ns
    → entry.namespaces ≡ ns
    → with_namespaces (join comma ns) entry ≡ entry
unfolding with_namespaces
with_namespaces-join [] entry h e = unfold join in refl
with_namespaces-join (n ∷ ns) entry h e =
    rw (join-nil n ns h, parse_namespaces-join n ns h)
      (ap (λ v. record entry { namespaces = v }) (sym e))

cut_prefix-append : (p s : Bytes) → cut_prefix (p ++ s) p ≡ some s
unfolding cut_prefix
cut_prefix-append [] s = refl
cut_prefix-append (c ∷ p) s = ground (arith, cut_prefix-append p s)

trim_prefix-append : (p s : Bytes) → trim_prefix (p ++ s) p ≡ s
unfolding trim_prefix
trim_prefix-append p s = rw (trim_prefix, cut_prefix-append p s) refl

with_key_same : (entry : ApiKeyEntry) → with_key (some entry.key_id) entry ≡ entry
unfolding with_key
with_key_same entry = elim (Bool-cases (is_nil entry.key_id)) [
  | inl e ↦ rw e refl
  | inr e ↦ rw e refl
]

with_name_same :
    (entry : ApiKeyEntry) → with_name (api_key_secret_prefix ++ entry.name) entry ≡ entry
unfolding with_name
with_name_same entry = elim (Bool-cases (is_nil entry.name)) [
  | inl e ↦
      rw e
        (ap (λ v. record entry { name = v }) (trim_prefix-append api_key_secret_prefix entry.name))
  | inr e ↦ rw e refl
]

abbrev pub to_second : Option ℕ → Option ℕ
to_second none = none
to_second (some t) = some (to_seconds t)

with_expiry_same :
    (entry : ApiKeyEntry) (t : Option ℕ)
    → entry.expires_at ≡ t
    → with_expiry (format_expiry t) entry ≡ record entry { expires_at = to_second t }
unfolding with_expiry format_expiry
with_expiry_same entry none e = ap (λ v. record entry { expires_at = v }) e
with_expiry_same entry (some t) e = refl

-- An entry whose namespaces are patterns without commas and outer blanks comes back from its Secret as
-- it was, but for the expiry, which is cut to the second.
pub from_secret-to_secret :
    (entry : ApiKeyEntry)
    → All IsPattern entry.namespaces
    → from_secret (to_secret entry) ≡ record entry { expires_at = to_second entry.expires_at }
unfolding from_secret to_secret
from_secret-to_secret entry h =
    ap
      (λ x. with_expiry (format_expiry entry.expires_at) (
        with_namespaces (join comma entry.namespaces)
          (with_name (api_key_secret_prefix ++ entry.name) x)))
      (with_key_same entry)
    ∙ ap
        (λ x.
          with_expiry (format_expiry entry.expires_at)
            (with_namespaces (join comma entry.namespaces) x))
        (with_name_same entry)
    ∙ ap (with_expiry (format_expiry entry.expires_at))
        (with_namespaces-join entry.namespaces entry h refl)
    ∙ with_expiry_same entry entry.expires_at refl

-- Some listed Secret holds the value, the entry is that of the Secret, and it has not expired.
abbrev pub IsHeld : List Secret → ℕ → Bytes → ApiKeyEntry → Type 0
IsHeld secrets now value entry =
    (secret : Secret) × Memᴰ secret secrets
    × (or_empty_bytes secret.key ≡ value)
    × (entry ≡ from_secret secret)
    × (expired now entry ≡ false)

find_key-IsHeld :
    (now : ℕ) (secrets : List Secret) (value : Bytes) (entry : ApiKeyEntry)
    → find_key now secrets value ≡ some entry
    → IsHeld secrets now value entry
unfolding find_key
find_key-IsHeld now [] value entry h = absurd (cc h)
find_key-IsHeld now (secret ∷ secrets) value entry h =
    elim (Bool-cases (bytes_eq (or_empty_bytes secret.key) value)) [
      | inr other ↦
          let (s, m, k, e, x) = find_key-IsHeld now secrets value entry (rw other at h) in
          (s, Memᴰ.tail m, k, e, x)
      | inl same ↦ elim (Bool-cases (expired now (from_secret secret))) [
        | inl old ↦ absurd (cc (rw (same, old) at h))
        | inr new ↦
            let e : from_secret secret ≡ entry = some_injective (rw (same, new) at h) in
            (
              secret,
              Memᴰ.head refl,
              bytes_eq-eq (or_empty_bytes secret.key) value same,
              sym e,
              ap (expired now) (sym e) ∙ new,
            )
      ]
    ]

-- A key that is accepted is the value of a listed Secret, its entry is that of the Secret, and it has
-- not expired.
pub get_key-IsHeld :
    (store : KeyStore) (value : Bytes) (entry : ApiKeyEntry)
    → get_key store value ≡ some entry
    → (secrets : List Secret) × (store.secrets ≡ ok secrets) × IsHeld secrets store.now value entry
unfolding get_key
get_key-IsHeld store value entry h = elim (Outcome-cases store.secrets) [
  | inl (secrets, e) ↦
      (secrets, e, find_key-IsHeld store.now secrets value entry (rw (get_key, e) at h))
  | inr (x, e) ↦ absurd (cc (rw (get_key, e) at h))
]
