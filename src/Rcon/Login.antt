-- ===== src/Rcon/Login.antt =====
-- What a login sends and what it accepts, sdk/agent/rcon/minecraft.go and source.go.
use minato.Prelude.{
  ◌≡◌, ◌≢◌, refl, sym, ap, subst, ◌∙◌, ℤ, ◌⊎◌, inl, inr, true, false, [], ◌∷◌, none, some,
  Option-cases, Bool-cases, pos, negsuc, Bytes, arith,
}
use minato.Rcon.Wire.{Packet, ReadError, Read, packet, failed, read_raw_packet}
use minato.Rcon.Clients.{
  Peer, Framing, Conn, RconError, Result, dial_failed, write_failed, read_failed, auth_failed, ok,
  err, panics, write, send_packet, read_packet, check_login, is_minus_one, refused, close_on_error,
  new_client, dialled, ◌>>=◌, bind_ok, bind_err,
}

-- The peer has answered the login packet by one that accepts it, and the connection is open.
abbrev pub IsLoggedIn : Peer → Framing → Bytes → Conn → Type 0
IsLoggedIn peer framing password c =
    (buf : Bytes) × (answer : Bytes) × (p : Packet) × (framing (pos 3) password ≡ some buf)
    × (c.written ≡ buf ∷ [])
    × (peer (buf ∷ []) ≡ some answer)
    × (read_raw_packet answer ≡ packet p c.incoming)
    × (p.id ≢ negsuc 0)
    × (p.ptype ≡ pos 2)
    × (c.closed ≡ false)

-- Why a login is denied: the packet is not sent, or what comes back is no packet, or it refuses.
abbrev pub IsDenied : Peer → Framing → Bytes → RconError → Type 0
IsDenied peer framing password dial_failed = ⊥
IsDenied peer framing password write_failed =
    (buf : Bytes) × (framing (pos 3) password ≡ some buf) × (peer (buf ∷ []) ≡ none)
IsDenied peer framing password (read_failed x) =
    (buf : Bytes) × (answer : Bytes) × (rest : Bytes) × (framing (pos 3) password ≡ some buf)
    × (peer (buf ∷ []) ≡ some answer)
    × (read_raw_packet answer ≡ failed x rest)
IsDenied peer framing password (auth_failed p) =
    (buf : Bytes) × (answer : Bytes) × (rest : Bytes) × (framing (pos 3) password ≡ some buf)
    × (peer (buf ∷ []) ≡ some answer)
    × (read_raw_packet answer ≡ packet p rest)
    × ((p.id ≡ negsuc 0) ⊎ (p.ptype ≢ pos 2))

-- A client is logged in, or its connection is closed, or the password does not fit a packet.
abbrev pub LoginEnds : Peer → Framing → Bytes → Result (Unit {0}) × Conn → Type 0
LoginEnds peer framing password (ok u, c) = IsLoggedIn peer framing password c
LoginEnds peer framing password (err e, c) = IsDenied peer framing password e × (c.closed ≡ true)
LoginEnds peer framing password (panics, c) = framing (pos 3) password ≡ none

pub Read-cases :
    (r : Read)
    → ((p : Packet) × (s : Bytes) × (r ≡ packet p s))
      ⊎ ((e : ReadError) × (s : Bytes) × (r ≡ failed e s))
Read-cases (packet p s) = inl (p, s, refl)
Read-cases (failed e s) = inr (e, s, refl)

accepted : (p : Packet) → refused p ≡ false → (p.id ≢ negsuc 0) × (p.ptype ≡ pos 2)
unfolding refused
accepted p h = (λ e. ground (arith, e), ground arith)

minus_one : (z : ℤ) → is_minus_one z ≡ true → z ≡ negsuc 0
minus_one (pos n) h = absurd (cc h)
minus_one (negsuc n) h = ground (arith, h)

rejected : (p : Packet) → refused p ≡ true → (p.id ≡ negsuc 0) ⊎ (p.ptype ≢ pos 2)
unfolding refused
rejected p h = elim (Bool-cases (is_minus_one p.id)) [
  | inl a ↦ inl (minus_one p.id a)
  | inr a ↦ inr (λ e. ground (arith, h, a, e))
]

abbrev pub open_after : Bytes → Bytes → Conn
open_after buf s = record { written = buf ∷ []; incoming = s; closed = false }

pub granted :
    (p : Packet) (c : Conn) → refused p ≡ false → close_on_error (check_login p c) ≡ (ok tt, c)
unfolding check_login close_on_error
granted p c r = rw (check_login, r) refl

pub denied :
    (p : Packet) (c : Conn)
    → refused p ≡ true
    → close_on_error (check_login p c) ≡ (err (auth_failed p), record c { closed = true })
unfolding check_login close_on_error
denied p c r = rw (check_login, r) refl

module _ (peer : Peer) (framing : Framing) (password : Bytes) where
  unframed : framing (pos 3) password ≡ none → new_client peer framing password ≡ (panics, dialled)
  unfolding new_client send_packet
  unframed e = rw (send_packet, e) refl

  module _ (buf : Bytes) (framed : framing (pos 3) password ≡ some buf) where
    lost :
        peer (buf ∷ []) ≡ none
        → send_packet peer framing (pos 3) password dialled ≡ (err write_failed, dialled)
    unfolding send_packet
    lost f = rw (send_packet, framed, write, f) refl

    pub unsent :
        peer (buf ∷ []) ≡ none
        → new_client peer framing password ≡ (err write_failed, record dialled { closed = true })
    unfolding new_client
    unsent f = ap close_on_error (
        bind_err (send_packet peer framing (pos 3) password) (λ _. read_packet >>= check_login)
          dialled (lost f))

    module _ (answer : Bytes) (answers : peer (buf ∷ []) ≡ some answer) (s : Bytes) where
      sent : send_packet peer framing (pos 3) password dialled ≡ (ok tt, open_after buf answer)
      unfolding send_packet
      sent = rw (send_packet, framed, write, answers) refl

      read_failure :
          (x : ReadError)
          → read_raw_packet answer ≡ failed x s
          → read_packet (open_after buf answer) ≡ (err (read_failed x), open_after buf s)
      unfolding read_packet
      read_failure x g = rw (read_packet, g) refl

      read_success :
          (p : Packet)
          → read_raw_packet answer ≡ packet p s
          → read_packet (open_after buf answer) ≡ (ok p, open_after buf s)
      unfolding read_packet
      read_success p g = rw (read_packet, g) refl

      pub unread :
          (x : ReadError)
          → read_raw_packet answer ≡ failed x s
          → new_client peer framing password
            ≡ (err (read_failed x), record (open_after buf s) { closed = true })
      unfolding new_client
      unread x g = ap close_on_error (
          bind_ok (send_packet peer framing (pos 3) password) (λ _. read_packet >>= check_login)
            dialled sent
          ∙ bind_err read_packet check_login (open_after buf answer) (read_failure x g))

      pub answered :
          (p : Packet)
          → read_raw_packet answer ≡ packet p s
          → new_client peer framing password ≡ close_on_error (check_login p (open_after buf s))
      unfolding new_client
      answered p g = ap close_on_error (
          bind_ok (send_packet peer framing (pos 3) password) (λ _. read_packet >>= check_login)
            dialled sent
          ∙ bind_ok read_packet check_login (open_after buf answer) (read_success p g))

-- A client is returned only after an answer that accepts the login: a packet of the type 2 whose id is
-- not -1. A login that fails does so because the packet is not sent, because the answer is no packet
-- or because it has another type or the id -1, and its connection is closed. The construction panics
-- only for a password that no packet holds.
pub new_client-IsLoggedIn :
    (peer : Peer) (framing : Framing) (password : Bytes)
    → LoginEnds peer framing password (new_client peer framing password)
new_client-IsLoggedIn peer framing password = elim (Option-cases (framing (pos 3) password)) [
  | inl e ↦ subst (LoginEnds peer framing password) (sym (unframed peer framing password e)) e
  | inr (buf, e) ↦ elim (Option-cases (peer (buf ∷ []))) [
    | inl f ↦
        subst (LoginEnds peer framing password) (sym (unsent peer framing password buf e f))
          ((buf, e, f), refl)
    | inr (answer, f) ↦ elim (Read-cases (read_raw_packet answer)) [
      | inr (x, s, g) ↦
          subst (LoginEnds peer framing password)
            (sym (unread peer framing password buf e answer f s x g))
            ((buf, answer, s, e, f, g), refl)
      | inl (p, s, g) ↦
          let same = answered peer framing password buf e answer f s p g in
          elim (Bool-cases (refused p)) [
            | inl r ↦
                subst (LoginEnds peer framing password) (sym (same ∙ denied p (open_after buf s) r))
                  ((buf, answer, s, e, f, g, rejected p r), refl)
            | inr r ↦
                let (i, j) = accepted p r in
                subst (LoginEnds peer framing password)
                  (sym (same ∙ granted p (open_after buf s) r))
                  (buf, answer, p, e, refl, f, g, i, j, refl)
          ]
    ]
  ]
]
