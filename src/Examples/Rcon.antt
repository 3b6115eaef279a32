-- ===== src/Examples/Rcon.antt =====
-- The RCON clients against a server that accepts a login.
use minato.Prelude.{◌≡◌, refl, false, some, [], ◌∷◌, ◌++◌, pos, negsuc, codes, Bytes, arith}
use minato.Rcon.Wire.{
  encode_packet, packet, read_raw_packet, put_uint32, uint32, read_full, read_payload, fields_of,
  checked_length, null_terminated, or_empty, Packet,
}
use minato.Rcon.Clients.{
  Conn, ok, minecraft_packet, new_minecraft_client, new_source_client, new_client, auth, write,
  send_packet, read_packet, check_login, refused, close_on_error,
}
use minato.Rcon.RoundTrip.{HasNoNull, read_raw_packet-encode_packet}
use minato.Rcon.Login.{LoginEnds, new_client-IsLoggedIn}
use minato.Rcon.LoginPacket.{Sends, login_types}

abbrev secret : Bytes
secret = codes "pw"

secret-HasNoNull : HasNoNull secret
secret-HasNoNull = ((λ e. omega (arith, e)), ((λ e. omega (arith, e)), tt))

-- A packet of the type 2 with the request id 1.
abbrev accepting : Bytes
accepting = 10 ∷ 0 ∷ 0 ∷ 0 ∷ 1 ∷ 0 ∷ 0 ∷ 0 ∷ 2 ∷ 0 ∷ 0 ∷ 0 ∷ 0 ∷ 0 ∷ []

abbrev acceptance : Packet
acceptance = record { id = pos 1; ptype = pos 2; body = [] }

read_raw_packet-encode_packet_example :
    (buf : Bytes) × (encode_packet (negsuc 0) (pos 3) secret ≡ some buf)
    × (read_raw_packet (buf ++ accepting)
        ≡ packet (record { id = negsuc 0; ptype = pos 3; body = secret }) accepting)
read_raw_packet-encode_packet_example =
    read_raw_packet-encode_packet (negsuc 0) (pos 3) secret accepting (omega arith) (omega arith)
      secret-HasNoNull (omega arith)

login_types_example :
    Sends
      (λ written. some accepting)
      (record { id = pos 1; ptype = pos 3; body = secret })
      (new_minecraft_client (λ written. some accepting) secret)
    × Sends
        (λ written. some accepting)
        (record { id = pos 3; ptype = pos 2; body = secret })
        (new_source_client (λ written. some accepting) secret)
login_types_example = login_types (λ written. some accepting) secret secret-HasNoNull (omega arith)

-- The connection after the login.
abbrev logged_in : Conn
logged_in = record {
  written = (12 ∷ 0 ∷ 0 ∷ 0 ∷ 1 ∷ 0 ∷ 0 ∷ 0 ∷ 3 ∷ 0 ∷ 0 ∷ 0 ∷ 112 ∷ 119 ∷ 0 ∷ 0 ∷ []) ∷ [];
  incoming = [];
  closed = false;
}

accepting-new_client :
    new_client (λ written. some accepting) minecraft_packet secret ≡ (ok tt, logged_in)
unfolding new_client auth send_packet write read_packet check_login refused close_on_error
    minecraft_packet encode_packet put_uint32 read_raw_packet uint32 checked_length read_payload
    read_full fields_of null_terminated or_empty
accepting-new_client = refl

new_client-IsLoggedIn_example :
    LoginEnds
      (λ written. some accepting)
      minecraft_packet
      secret
      (new_client (λ written. some accepting) minecraft_packet secret)
new_client-IsLoggedIn_example =
    new_client-IsLoggedIn (λ written. some accepting) minecraft_packet secret
