-- ===== src/Rcon/Clients.antt =====
-- The Minecraft and the Source client, sdk/agent/rcon/minecraft.go and source.go. The peer is not part
-- of the repository: it is a function from the packets written so far, newest first, to the bytes that
-- it sends before the next one, or to a failure of the write.
use minato.Prelude.{
  ap, ◌≡◌, Bool, true, false, not, ◌||◌, List, [], ◌∷◌, ◌++◌, Option, none, some, ◌==◌,
  if◌then◌else◌, pos, negsuc, Bytes,
}
use minato.Rcon.Wire.{Int32, encode_packet, Packet, ReadError, packet, failed, read_raw_packet}

abbrev pub Peer : Type 0
Peer = List Bytes → Option Bytes

pub record Conn : Type 0 where
  pub written : List Bytes
  pub incoming : Bytes
  pub closed : Bool

pub data RconError : Type 0 where
  dial_failed write_failed : RconError
  read_failed : ReadError → RconError
  auth_failed : Packet → RconError

-- A Go pair of a value and an error, or a panic.
pub data Result (A : Type 0) : Type 0 where
  ok : A → Result A
  err : RconError → Result A
  panics : Result A

-- A method of a client.
abbrev pub Session : Type 0 → Type 0
Session A = Conn → Result A × Conn

infixl 5 ◌>>=◌ ◌>>◌
abbrev pub ◌>>=◌ : {A B : Type 0} → Session A → (A → Session B) → Session B
◌>>=◌ m f c =
    let (r, c') = m c in elim r [ ok a ↦ f a c' | err e ↦ (err e, c') | panics ↦ (panics, c') ]

abbrev pub ◌>>◌ : {A B : Type 0} → Session A → Session B → Session B
◌>>◌ m k = m >>= λ _. k

module _ {A B : Type 0} (m : Session A) (f : A → Session B) (c : Conn) {c' : Conn} where
  pub bind_ok : {a : A} → m c ≡ (ok a, c') → (m >>= f) c ≡ f a c'
  bind_ok {a} h =
      ap (λ q. elim q.0 [ ok x ↦ f x q.1 | err e ↦ (err e, q.1) | panics ↦ (panics, q.1) ]) h

  pub bind_err : {e : RconError} → m c ≡ (err e, c') → (m >>= f) c ≡ (err e, c')
  bind_err {e} h =
      ap (λ q. elim q.0 [ ok x ↦ f x q.1 | err e ↦ (err e, q.1) | panics ↦ (panics, q.1) ]) h

-- The packet that `sendPacket` builds of its two arguments.
abbrev pub Framing : Type 0
Framing = Int32 → Bytes → Option Bytes

-- The request id is 1, and the first argument is the packet's type.
unfoldable pub minecraft_packet : Framing
minecraft_packet ptype body = encode_packet (pos 1) ptype body

-- The first argument is the request id, and the type is always 2, that of a command.
unfoldable pub source_packet : Framing
source_packet id body = encode_packet id (pos 2) body

unfoldable pub write : Peer → Bytes → Session (Unit {0})
write peer buf c = elim (peer (buf ∷ c.written)) [
  | none ↦ (err write_failed, c)
  | some answer ↦ (ok tt, record c { written = buf ∷ c.written; incoming = c.incoming ++ answer })
]

unfoldable pub send_packet : Peer → Framing → Int32 → Bytes → Session (Unit {0})
unfolding write
send_packet peer framing n body c = elim (framing n body) [
  | none ↦ (panics, c)
  | some buf ↦ write peer buf c
]

unfoldable pub read_packet : Session Packet
read_packet c = elim (read_raw_packet c.incoming) [
  | failed e rest ↦ (err (read_failed e), record c { incoming = rest })
  | packet p rest ↦ (ok p, record c { incoming = rest })
]

abbrev pub is_minus_one : Int32 → Bool
is_minus_one (pos n) = false
is_minus_one (negsuc n) = n == 0

abbrev pub is_two : Int32 → Bool
is_two (pos n) = n == 2
is_two (negsuc n) = false

-- `id == -1 || ptype != 2`.
unfoldable pub refused : Packet → Bool
refused p = is_minus_one p.id || not (is_two p.ptype)

unfoldable pub check_login : Packet → Session (Unit {0})
unfolding refused
check_login p c = if refused p then (err (auth_failed p), c) else (ok tt, c)

unfoldable pub auth : Peer → Framing → Bytes → Session (Unit {0})
unfolding send_packet read_packet check_login
auth peer framing password = do
  send_packet peer framing (pos 3) password
  p ← read_packet
  check_login p

unfoldable pub command : Peer → Framing → Bytes → Session Bytes
unfolding send_packet read_packet
command peer framing cmd = do
  send_packet peer framing (pos 2) cmd
  p ← read_packet
  λ c. (ok p.body, c)

abbrev pub dialled : Conn
dialled = record { written = []; incoming = []; closed = false }

-- After a failed login the connection is closed.
unfoldable pub close_on_error : Result (Unit {0}) × Conn → Result (Unit {0}) × Conn
close_on_error (ok u, c) = (ok u, c)
close_on_error (err e, c) = (err e, record c { closed = true })
close_on_error (panics, c) = (panics, c)

-- The two constructors, `NewMinecraftRCONClient` and `NewSourceRCONClient`, after their dial.
unfoldable pub new_client : Peer → Framing → Bytes → Result (Unit {0}) × Conn
unfolding auth close_on_error
new_client peer framing password = close_on_error (auth peer framing password dialled)

unfoldable pub new_minecraft_client : Peer → Bytes → Result (Unit {0}) × Conn
unfolding new_client
new_minecraft_client peer password = new_client peer minecraft_packet password

unfoldable pub new_source_client : Peer → Bytes → Result (Unit {0}) × Conn
unfolding new_client
new_source_client peer password = new_client peer source_packet password
