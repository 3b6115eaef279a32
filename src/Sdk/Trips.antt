-- ===== src/Sdk/Trips.antt =====
-- A game server converted to the generated type and back, sdk/controlplane/client.go.
use minato.Prelude.{
  zero, suc, ◌<◌, ◌≡◌, refl, sym, ap, ◌∙◌, inl, inr, ℤ, pos, negsuc, Bool, true, false, not, ◌||◌,
  ◌&&◌, is_none, Bool-cases, Option, none, some, String, str_eq, eq_iff, arith, if◌then◌else◌,
}
use minato.Sdk.Types.{SdkSnapshotRef, SdkStorage, SdkLifecycle, SdkGameServer}
use minato.Sdk.Convert.{
  int32_of, deref, ptr_or_nil, int_or_zero, or_false, no_storage, no_lifecycle, no_status,
  to_gen_ref, from_gen_ref, option_map, to_gen_storage, is_zero, to_gen_lifecycle,
  to_gen_game_server, from_gen_meta, from_gen_storage, from_gen_lifecycle, from_gen_spec,
  from_gen_status, from_gen_game_server,
}

-- A value of an int32.
abbrev pub IsInt32 : ℤ → Type 0
IsInt32 (pos n) = n < 2147483648
IsInt32 (negsuc n) = n < 2147483648

int32_of-IsInt32 : (n : ℤ) → IsInt32 n → int32_of n ≡ n
unfolding int32_of
int32_of-IsInt32 (pos n) h = ground arith
int32_of-IsInt32 (negsuc n) h = ground arith

deref-ptr_or_nil : (s : String) → deref (ptr_or_nil s) ≡ s
unfolding deref ptr_or_nil
deref-ptr_or_nil s = elim (Bool-cases (str_eq s "")) [
  | inl a ↦ rw (ptr_or_nil, a) (sym ((eq_iff s "").0 a))
  | inr a ↦ rw (ptr_or_nil, a) refl
]

if_true : {A : Type 0} (b : Bool) (x y : A) → b ≡ true → (if b then x else y) ≡ x
if_true b x y h = ap (λ c. if c then x else y) h

if_false : {A : Type 0} (b : Bool) (x y : A) → b ≡ false → (if b then x else y) ≡ y
if_false b x y h = ap (λ c. if c then x else y) h

ref_trip : (r : Option SdkSnapshotRef) → option_map from_gen_ref (option_map to_gen_ref r) ≡ r
unfolding deref
ref_trip none = refl
ref_trip (some r) =
    ap (λ n. some (record { name = r.name; namespace = n })) (deref-ptr_or_nil r.namespace)

-- A storage of which nothing is set.
abbrev is_blank : SdkStorage → Bool
is_blank s = str_eq s.size "" && (str_eq s.storage_class "" && is_none s.snapshot_ref)

set_test : (a b c : Bool) → (not a || (not b || not c)) ≡ not (a && (b && c))
set_test true true c = refl
set_test true false c = refl
set_test false b c = refl

all_three : (a b c : Bool) → (a && (b && c)) ≡ true → (a ≡ true) × (b ≡ true) × (c ≡ true)
all_three true true true h = (refl, refl, refl)
all_three true true false h = absurd (cc h)
all_three true false c h = absurd (cc h)
all_three false b c h = absurd (cc h)

none_of : (r : Option SdkSnapshotRef) → is_none r ≡ true → r ≡ none
none_of none h = refl
none_of (some r) h = absurd (cc h)

unset_storage : (s : SdkStorage) → is_blank s ≡ true → no_storage ≡ s
unset_storage s h =
    let (a, b, c) =
      all_three (str_eq s.size "") (str_eq s.storage_class "") (is_none s.snapshot_ref) h in
    rw ((eq_iff s.size "").0 a, (eq_iff s.storage_class "").0 b, none_of s.snapshot_ref c) refl

from_gen_storage-to_gen_storage : (s : SdkStorage) → from_gen_storage (to_gen_storage s) ≡ s
unfolding from_gen_storage to_gen_storage
from_gen_storage-to_gen_storage s =
    let test = set_test (str_eq s.size "") (str_eq s.storage_class "") (is_none s.snapshot_ref) in
    elim (Bool-cases (is_blank s)) [
      | inl a ↦ ap from_gen_storage (if_false _ _ none (test ∙ ap not a)) ∙ unset_storage s a
      | inr a ↦
          ap from_gen_storage (if_true _ _ none (test ∙ ap not a))
          ∙ rw (deref-ptr_or_nil s.size, deref-ptr_or_nil s.storage_class, ref_trip s.snapshot_ref)
              refl
    ]

unset_lifecycle :
    (start : Bool) (n : ℤ)
    → (start || not (is_zero n)) ≡ false
    → no_lifecycle ≡ record { idle_timeout_seconds = n; auto_start = start }
unset_lifecycle true n h = absurd (cc h)
unset_lifecycle false (pos zero) h = refl
unset_lifecycle false (pos (suc n)) h = absurd (cc h)
unset_lifecycle false (negsuc n) h = absurd (cc h)

from_gen_lifecycle-to_gen_lifecycle :
    (l : SdkLifecycle)
    → IsInt32 l.idle_timeout_seconds
    → from_gen_lifecycle (to_gen_lifecycle l) ≡ l
unfolding from_gen_lifecycle to_gen_lifecycle int_or_zero or_false
from_gen_lifecycle-to_gen_lifecycle l h =
    elim (Bool-cases (l.auto_start || not (is_zero l.idle_timeout_seconds))) [
      | inl a ↦
          ap from_gen_lifecycle (if_true _ _ none a)
          ∙ ap (λ n. record { idle_timeout_seconds = n; auto_start = l.auto_start })
              (int32_of-IsInt32 l.idle_timeout_seconds h)
      | inr a ↦
          ap from_gen_lifecycle (if_false _ _ none a)
          ∙ unset_lifecycle l.auto_start l.idle_timeout_seconds a
    ]

-- A game server whose idle timeout is an int32 comes back as it was, but for its status, which a client
-- does not send.
pub from_gen_game_server-to_gen_game_server :
    (gs : SdkGameServer)
    → IsInt32 gs.spec.lifecycle.idle_timeout_seconds
    → from_gen_game_server (some (to_gen_game_server gs)) ≡ record gs { status = no_status }
unfolding from_gen_game_server to_gen_game_server from_gen_spec from_gen_meta from_gen_status
from_gen_game_server-to_gen_game_server gs h =
    rw
      (
        deref-ptr_or_nil gs.api_version,
        deref-ptr_or_nil gs.kind,
        deref-ptr_or_nil gs.metadata.namespace,
        deref-ptr_or_nil gs.spec.load_balancer_ip,
        from_gen_storage-to_gen_storage gs.spec.storage,
        from_gen_lifecycle-to_gen_lifecycle gs.spec.lifecycle h,
      )
      refl
