-- ===== src/Rcon/RoundTrip.antt =====
-- What a reader makes of the bytes of a packet, sdk/agent/rcon/minecraft.go.
use minato.Prelude.{
  ℕ, zero, suc, ◌+◌, ◌-◌, ◌<◌, ◌≤◌, ◌≡◌, ◌≢◌, refl, ap, ◌∙◌, [], ◌∷◌, ◌++◌, length, take, drop,
  some, arith, pos, negsuc, Bytes, All, length-append, Option-cases, inl, inr,
}
use minato.Rcon.Wire.{
  Int32, to_uint32, to_int32, put_uint32, uint32, read_full, encode_packet, null_terminated,
  or_empty, Packet, packet, fields_of, checked_length, read_payload, read_raw_packet,
}

abbrev pub IsInt32 : Int32 → Type 0
IsInt32 (pos n) = n < 2147483648
IsInt32 (negsuc n) = n < 2147483648

-- A text that `null_terminated` does not cut.
abbrev pub HasNoNull : Bytes → Type 0
HasNoNull s = All (λ b. b ≢ 0) s

uint32-put :
    (n : ℕ) (rest : Bytes) → n < 4294967296 → uint32 (put_uint32 n ++ rest) ≡ some (n, rest)
unfolding uint32 put_uint32
uint32-put n rest h = ap (λ k. some (k, rest)) (omega arith)

to_int32-to_uint32 : (i : Int32) → IsInt32 i → to_int32 (to_uint32 i) ≡ i
to_int32-to_uint32 (pos n) h = ground arith
to_int32-to_uint32 (negsuc n) h = ground arith

to_uint32-lt : (i : Int32) → IsInt32 i → to_uint32 i < 4294967296
to_uint32-lt (pos n) h = omega arith
to_uint32-lt (negsuc n) h = omega arith

null_terminated-append : (s rest : Bytes) → HasNoNull s → null_terminated (s ++ 0 ∷ rest) ≡ some s
unfolding null_terminated
null_terminated-append [] rest h = refl
null_terminated-append (b ∷ s) rest h = ground (arith, h.0, null_terminated-append s rest h.1)

take_append : (s rest : Bytes) → take (length s) (s ++ rest) ≡ s
take_append [] rest = refl
take_append (b ∷ s) rest = ap (λ l. b ∷ l) (take_append s rest)

drop_append : (s rest : Bytes) → drop (length s) (s ++ rest) ≡ rest
drop_append [] rest = refl
drop_append (b ∷ s) rest = drop_append s rest

read_full-append :
    (n : ℕ) (s rest : Bytes) → length s ≡ n → read_full n (s ++ rest) ≡ some (s, rest)
unfolding read_full
read_full-append n s rest e = ground (
  arith,
  length-append s rest,
  ap (λ k. take k (s ++ rest)) e,
  ap (λ k. drop k (s ++ rest)) e,
  take_append s rest,
  drop_append s rest,
)

abbrev framed : Int32 → Int32 → Bytes → Bytes
framed id ptype body =
    put_uint32 (to_uint32 id) ++ (put_uint32 (to_uint32 ptype) ++ (body ++ (0 ∷ 0 ∷ [])))

fields_of-framed :
    (id ptype : Int32) (body : Bytes)
    → IsInt32 id
    → IsInt32 ptype
    → HasNoNull body
    → fields_of (framed id ptype body) ≡ some (record { id = id; ptype = ptype; body = body })
unfolding fields_of or_empty
fields_of-framed id ptype body i p h =
    rw
      (
        fields_of,
        uint32-put (to_uint32 id) (put_uint32 (to_uint32 ptype) ++ (body ++ (0 ∷ 0 ∷ [])))
            (to_uint32-lt id i),
        uint32-put (to_uint32 ptype) (body ++ (0 ∷ 0 ∷ [])) (to_uint32-lt ptype p),
        null_terminated-append body (0 ∷ []) h,
        to_int32-to_uint32 id i,
        to_int32-to_uint32 ptype p,
      )
      refl

length-framed : (id ptype : Int32) (body : Bytes) → length (framed id ptype body) ≡ length body + 10
unfolding put_uint32
length-framed id ptype body = omega (arith, length-append body (0 ∷ 0 ∷ []))

checked : (n : ℕ) → 10 ≤ n → n ≤ 4096 → checked_length (to_int32 n) ≡ some n
unfolding checked_length
checked n lo hi = ground arith

sized :
    (n : ℕ) (s : Bytes) → 10 ≤ n → n ≤ 4096 → read_raw_packet (put_uint32 n ++ s) ≡ read_payload n s
unfolding read_raw_packet
sized n s lo hi = rw (read_raw_packet, uint32-put n s (omega arith), checked n lo hi) refl

payload :
    (n : ℕ) (s rest : Bytes) (q : Packet)
    → length s ≡ n
    → fields_of s ≡ some q
    → read_payload n (s ++ rest) ≡ packet q rest
unfolding read_payload
payload n s rest q l f = rw (read_payload, read_full-append n s rest l, f) refl

-- A packet with int32 fields and a body of at most 4086 bytes without a null byte is read back as it
-- was sent, whatever follows it, and what follows is left.
pub read_raw_packet-encode_packet :
    (id ptype : Int32) (body rest : Bytes)
    → IsInt32 id
    → IsInt32 ptype
    → HasNoNull body
    → length body ≤ 4086
    → (buf : Bytes) × (encode_packet id ptype body ≡ some buf)
      × (read_raw_packet (buf ++ rest)
          ≡ packet (record { id = id; ptype = ptype; body = body }) rest)
unfolding encode_packet put_uint32
read_raw_packet-encode_packet id ptype body rest i p h small = (
  put_uint32 (length body + 10) ++ framed id ptype body,
  ground arith,
  sized (length body + 10) (framed id ptype body ++ rest) (omega arith) (omega arith)
      ∙ payload (length body + 10) (framed id ptype body) rest _ (length-framed id ptype body)
          (fields_of-framed id ptype body i p h),
)

length-drop : (n : ℕ) (s : Bytes) → length (drop n s) + n ≡ length s + (n - length s)
length-drop zero s = omega arith
length-drop (suc n) [] = omega arith
length-drop (suc n) (b ∷ s) = omega (arith, length-drop n s)

length-null_terminated : (s : Bytes) → length (or_empty (null_terminated s)) ≤ length s
unfolding null_terminated or_empty
length-null_terminated [] = omega arith
length-null_terminated (b ∷ s) = ground (arith, length-null_terminated s)

length-take_le : (n : ℕ) (s : Bytes) → length (take n s) ≤ n
length-take_le zero s = omega arith
length-take_le (suc n) [] = omega arith
length-take_le (suc n) (b ∷ s) = omega (arith, length-take_le n s)

fields_bound : (s : Bytes) (p : Packet) → fields_of s ≡ some p → length p.body + 8 ≤ length s
unfolding fields_of uint32
fields_bound (a ∷ b ∷ c ∷ d ∷ e ∷ f ∷ g ∷ h ∷ s) p e' = ground (arith, length-null_terminated s)
fields_bound _ p e' = absurd (cc)

read_full-takes :
    (n : ℕ) (s t rest : Bytes)
    → read_full n s ≡ some (t, rest)
    → (length t ≤ n) × (length rest + n ≤ length s)
unfolding read_full
read_full-takes n s t rest h = ground (arith, length-take_le n s, length-drop n s)

payload_bound :
    (n : ℕ) (s rest : Bytes) (p : Packet)
    → read_payload n s ≡ packet p rest
    → (length p.body + 8 ≤ n) × (length rest + n ≤ length s)
unfolding read_payload
payload_bound n s rest p h = elim (Option-cases (read_full n s)) [
  | inl e ↦ absurd (cc (rw (read_payload, e) at h))
  | inr ((t, later), e) ↦ elim (Option-cases (fields_of t)) [
    | inl f ↦ absurd (cc (rw (read_payload, e, f) at h))
    | inr (q, f) ↦
        ground
          (arith, rw (read_payload, e, f) at h, read_full-takes n s t later e, fields_bound t q f)
  ]
]

checked_length-bounds : (i : Int32) (n : ℕ) → checked_length i ≡ some n → (10 ≤ n) × (n ≤ 4096)
unfolding checked_length
checked_length-bounds (pos k) n h = ground arith
checked_length-bounds (negsuc k) n h = absurd (cc)

uint32-takes : (s rest : Bytes) (n : ℕ) → uint32 s ≡ some (n, rest) → length s ≡ length rest + 4
unfolding uint32
uint32-takes (a ∷ b ∷ c ∷ d ∷ s) rest n h = ground (arith, h)
uint32-takes _ rest n h = absurd (cc)

-- A packet that is read takes at least 14 bytes, and its body has at most 4088.
read_raw_packet-bounds :
    (s rest : Bytes) (p : Packet)
    → read_raw_packet s ≡ packet p rest
    → (length rest + 14 ≤ length s) × (length p.body ≤ 4088)
unfolding read_raw_packet
read_raw_packet-bounds s rest p h = elim (Option-cases (uint32 s)) [
  | inl e ↦ absurd (cc (rw (read_raw_packet, e) at h))
  | inr ((word, later), e) ↦ elim (Option-cases (checked_length (to_int32 word))) [
    | inl f ↦ absurd (cc (rw (read_raw_packet, e, f) at h))
    | inr (n, f) ↦ omega (
      arith,
      checked_length-bounds (to_int32 word) n f,
      uint32-takes s later word e,
      payload_bound n later rest p (rw (read_raw_packet, e, f) at h),
    )
  ]
]
