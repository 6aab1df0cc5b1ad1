-- ===== src/Wire/Datagram/RoundTrip.antt =====
-- The two datagrams together: what is encoded is decoded.
use pulse_go.Base.{ℕ, ◌≡◌, List, ◌++◌, length}
use pulse_go.Go.{ok, ◌>>=◌, IsU64}
use pulse_go.Wire.Datagram.{
  SigFirst, DatagramHeartbeat, sig_first, heartbeat, dg_sig_first_min, dg_heartbeat_min,
  encode_dg_sig_first, encode_dg_heartbeat, decode_datagram,
}
use pulse_go.Wire.Datagram.Laws.{sig_first_roundtrip, heartbeat_roundtrip}

-- An encoded datagram decodes to its fields, whatever bytes are added behind it: a sig-first datagram
-- in a buffer of 81 bytes, with numbers of 64 bits and a signature of 64 bytes, and a heartbeat in a
-- buffer of 17 bytes, with numbers of 64 bits.
pub datagram_roundtrip :
    (buf₁ buf₂ extra : List ℕ) (sf : SigFirst) (hb : DatagramHeartbeat)
    → length buf₁ ≡ dg_sig_first_min
    → IsU64 sf.slot
    → IsU64 sf.seq
    → length sf.signature ≡ 64
    → length buf₂ ≡ dg_heartbeat_min
    → IsU64 hb.server_ts_ms
    → IsU64 hb.highest_seq
    → ((do b ← encode_dg_sig_first buf₁ sf.slot sf.seq sf.signature; decode_datagram (b ++ extra))
        ≡ ok (sig_first sf))
      × ((do
        b ← encode_dg_heartbeat buf₂ hb.server_ts_ms hb.highest_seq
        decode_datagram (b ++ extra))
          ≡ ok (heartbeat hb))
datagram_roundtrip buf₁ buf₂ extra sf hb size₁ slot seq signature size₂ ts highest = (
  sig_first_roundtrip buf₁ sf extra size₁ slot seq signature,
  heartbeat_roundtrip buf₂ hb extra size₂ ts highest,
)
