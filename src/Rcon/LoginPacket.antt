-- ===== src/Rcon/LoginPacket.antt =====
-- The packet by which each client logs in, sdk/agent/rcon/minecraft.go and source.go.
use minato.Prelude.{
  ◌≤◌, ◌≡◌, sym, ap, ◌∙◌, ◌++◌, ℤ, ◌⊎◌, inl, inr, [], ◌∷◌, none, some, Option-cases, Bool-cases,
  pos, Bytes, length, arith,
}
use mathlib.Core.List.{append-nil}
use minato.Rcon.Wire.{Packet, packet, read_raw_packet}
use minato.Rcon.Clients.{
  Peer, Framing, Conn, Result, minecraft_packet, source_packet, refused, new_client,
  new_minecraft_client, new_source_client,
}
use minato.Rcon.RoundTrip.{HasNoNull, read_raw_packet-encode_packet}
use minato.Rcon.Login.{Read-cases, granted, denied, open_after, unsent, unread, answered}

-- The only packet of a run is this one, unless the peer does not take it.
abbrev pub Sends : Peer → Packet → Result (Unit {0}) × Conn → Type 0
Sends peer p run =
    (m : Bytes) × (read_raw_packet m ≡ packet p [])
    × (((peer (m ∷ []) ≡ none) × (run.1.written ≡ [])) ⊎ (run.1.written ≡ m ∷ []))

new_client-written :
    (peer : Peer) (framing : Framing) (password buf : Bytes)
    → framing (pos 3) password ≡ some buf
    → ((peer (buf ∷ []) ≡ none) × ((new_client peer framing password).1.written ≡ []))
      ⊎ ((new_client peer framing password).1.written ≡ buf ∷ [])
new_client-written peer framing password buf e = elim (Option-cases (peer (buf ∷ []))) [
  | inl f ↦ inl (f, ap (λ r. r.1.written) (unsent peer framing password buf e f))
  | inr (answer, f) ↦ elim (Read-cases (read_raw_packet answer)) [
    | inr (x, s, g) ↦
        inr (ap (λ r. r.1.written) (unread peer framing password buf e answer f s x g))
    | inl (p, s, g) ↦
        let same = answered peer framing password buf e answer f s p g in
        elim (Bool-cases (refused p)) [
          | inl r ↦ inr (ap (λ q. q.1.written) (same ∙ denied p (open_after buf s) r))
          | inr r ↦ inr (ap (λ q. q.1.written) (same ∙ granted p (open_after buf s) r))
        ]
  ]
]

new_client-Sends :
    (peer : Peer) (framing : Framing) (password : Bytes) (id ptype : ℤ)
    → ((m : Bytes) × (framing (pos 3) password ≡ some m)
        × (read_raw_packet (m ++ [])
            ≡ packet (record { id = id; ptype = ptype; body = password }) []))
    → Sends peer
        (record { id = id; ptype = ptype; body = password })
        (new_client peer framing password)
new_client-Sends peer framing password id ptype (m, e, f) =
    (m, ap read_raw_packet (sym (append-nil m)) ∙ f, new_client-written peer framing password m e)

-- Whatever the peer answers, for a password of at most 4086 bytes without a null byte the one packet
-- by which the Minecraft client logs in has the type 3, that of a login, and the id 1. The one by
-- which the Source client logs in has the type 2, that of a command, and the id 3: a Source server
-- sees no login.
pub login_types :
    (peer : Peer) (password : Bytes)
    → HasNoNull password
    → length password ≤ 4086
    → Sends peer
        (record { id = pos 1; ptype = pos 3; body = password })
        (new_minecraft_client peer password)
      × Sends peer
          (record { id = pos 3; ptype = pos 2; body = password })
          (new_source_client peer password)
unfolding minecraft_packet source_packet new_minecraft_client new_source_client
login_types peer password h small = (
  new_client-Sends peer minecraft_packet password (pos 1) (pos 3) (
      read_raw_packet-encode_packet (pos 1) (pos 3) password [] (omega arith) (omega arith) h
        small),
  new_client-Sends peer source_packet password (pos 3) (pos 2) (
      read_raw_packet-encode_packet (pos 3) (pos 2) password [] (omega arith) (omega arith) h
        small),
)
