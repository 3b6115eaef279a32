-- ===== src/Rcon/Wire.antt =====
-- The packets of the RCON protocol on the wire, sdk/agent/rcon/minecraft.go and source.go.
use minato.Prelude.{
  ℕ, ◌+◌, ◌-◌, ◌*◌, ◌/◌, ◌%◌, ◌||◌, [], ◌∷◌, ◌++◌, length, take, drop, Option, none, some, ltb,
  ◌==◌, if◌then◌else◌, ℤ, pos, negsuc, wrap_i32, Bytes,
}

abbrev pub Int32 : Type 0
Int32 = ℤ

-- `uint32(n)` of an int32, and `int32(n)` of a uint32.
abbrev pub to_uint32 : Int32 → ℕ
to_uint32 (pos n) = n
to_uint32 (negsuc n) = 4294967295 - n

abbrev pub to_int32 : ℕ → Int32
to_int32 n = wrap_i32 (pos n)

-- `binary.LittleEndian.PutUint32` and `Uint32`; a slice that is too short makes the second panic.
unfoldable pub put_uint32 : ℕ → Bytes
put_uint32 n = n % 256 ∷ n / 256 % 256 ∷ n / 65536 % 256 ∷ n / 16777216 % 256 ∷ []

unfoldable pub uint32 : Bytes → Option (ℕ × Bytes)
uint32 (a ∷ b ∷ c ∷ d ∷ rest) = some (a + b * 256 + c * 65536 + d * 16777216, rest)
uint32 _ = none

-- `io.ReadFull` of `n` bytes from what the peer has sent; `none` is its error.
unfoldable pub read_full : ℕ → Bytes → Option (Bytes × Bytes)
read_full n s = if ltb (length s) n then none else some (take n s, drop n s)

-- The bytes of a packet with the request id `id`. The int32 of its length overflows beyond 2^31, and
-- with it `make` or a slice expression panics: `none`.
unfoldable pub encode_packet : Int32 → Int32 → Bytes → Option Bytes
encode_packet id ptype body =
    if ltb (length body + 14) 2147483648
    then some (
        put_uint32 (length body + 10)
        ++ (put_uint32 (to_uint32 id) ++ (put_uint32 (to_uint32 ptype) ++ (body ++ (0 ∷ 0 ∷ [])))))
    else none

-- The bytes before the first null byte, or none at all where there is no null byte.
unfoldable pub null_terminated : Bytes → Option Bytes
null_terminated [] = none
null_terminated (b ∷ bs) =
    let rest = null_terminated bs in
    if b == 0 then some [] else elim rest [ none ↦ none | some s ↦ some (b ∷ s) ]

unfoldable pub or_empty : Option Bytes → Bytes
or_empty none = []
or_empty (some s) = s

pub record Packet : Type 0 where
  pub id : Int32
  pub ptype : Int32
  pub body : Bytes

pub data ReadError : Type 0 where
  read_length : ReadError
  invalid_length : Int32 → ReadError
  read_body : ReadError

-- What `readRawPacket` returns, and what is left unread.
pub data Read : Type 0 where
  packet : Packet → Bytes → Read
  failed : ReadError → Bytes → Read

-- The fields of a packet of at least 10 bytes.
unfoldable pub fields_of : Bytes → Option Packet
fields_of s = elim (uint32 s) [
  | none ↦ none
  | some (id, after) ↦ elim (uint32 after) [
    | none ↦ none
    | some (ptype, body) ↦ some (record {
      id = to_int32 id;
      ptype = to_int32 ptype;
      body = or_empty (null_terminated body);
    })
  ]
]

-- `length < 10 || length > 4096`, or the size of the buffer.
unfoldable pub checked_length : Int32 → Option ℕ
checked_length (pos n) = if ltb n 10 || ltb 4096 n then none else some n
checked_length (negsuc n) = none

unfoldable pub read_payload : ℕ → Bytes → Read
read_payload n s = elim (read_full n s) [
  | none ↦ failed read_body []
  | some (payload, rest) ↦ elim (fields_of payload) [
    | none ↦ failed read_body rest
    | some p ↦ packet p rest
  ]
]

unfoldable pub read_raw_packet : Bytes → Read
read_raw_packet s = elim (uint32 s) [
  | none ↦ failed read_length []
  | some (word, rest) ↦ elim (checked_length (to_int32 word)) [
    | none ↦ failed (invalid_length (to_int32 word)) rest
    | some n ↦ read_payload n rest
  ]
]
