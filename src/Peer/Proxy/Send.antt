-- ===== src/Peer/Proxy/Send.antt =====
-- The datagrams that go to the DLL: `sendPacket` and the four methods that call it. The socket is
-- left out; the result is what is written to it, and `none` is a panic.
pub mod Relay
mod Examples
use web_rtcsfu.Base.{
  ℕ, zero, suc, ◌+◌, ◌-◌, ◌≤◌, ◌<◌, ◌≡◌, refl, ap, ◌∙◌, Option, none, some, ◌>>=◌, List, [], ◌∷◌,
  ◌++◌, arith, length, take, drop, replicate, take_all, length-drop, ◌↔◌, leb, ltb, ◌&&◌, Bool,
  true, false,
}
use web_rtcsfu.Base.Bytes.{Bytes, put_uint32, slice, copy, le_bytes, slice-eq_some, copy-append}
use web_rtcsfu.Peer.Packet.{buffer_proxy_length, type_header_size, peer_ready_length}
use web_rtcsfu.Peer.Proxy.Types.{
  ready_packet_type, tile_packet_type, audio_packet_type, control_packet_type,
}

pub send_packet : Bytes → ℕ → ℕ → Option Bytes
send_packet b offset packet_type = do
  let buff_proxy = put_uint32 0 packet_type (replicate buffer_proxy_length 0)
  part ← slice offset (length b) b
  some (copy type_header_size part buff_proxy)

unfoldable pub send_peer_ready_packet : Option Bytes
send_peer_ready_packet = send_packet (replicate peer_ready_length 0) 0 ready_packet_type

pub send_tile_packet : Bytes → ℕ → Option Bytes
send_tile_packet b offset = send_packet b offset tile_packet_type

pub send_audio_packet : Bytes → ℕ → Option Bytes
send_audio_packet b offset = send_packet b offset audio_packet_type

pub send_control_packet : Bytes → Option Bytes
send_control_packet b = send_packet b 0 control_packet_type

-- What `sendPacket` is meant to write: the type, as much of the data as fits, and zeros up to 1300.
abbrev pub framed : ℕ → Bytes → Bytes
framed packet_type part = le_bytes packet_type ++ take 1296 part ++ replicate (1296 - length part) 0

copy_zeros :
    (room : ℕ) (part : Bytes)
    → copy 0 part (replicate room 0) ≡ take room part ++ replicate (room - length part) 0
copy_zeros zero [] = refl
copy_zeros zero (b ∷ part) = ap (λ (n : ℕ). replicate {A = ℕ} n 0) {x = 0} (omega arith)
copy_zeros (suc room) [] = ap (λ (n : ℕ). replicate {A = ℕ} n 0) {x = suc room} (omega arith)
copy_zeros (suc room) (b ∷ part) =
    ap (λ t. b ∷ t)
      (copy_zeros room part ∙ ap (λ (n : ℕ). take room part ++ replicate n 0) (omega arith))

-- For an offset that is at most the length of the data, `sendPacket` writes the type in little
-- endian, then the data from the offset on, cut at 1296 bytes, then zeros up to 1300 bytes.
pub send_packet-framed :
    (b : Bytes) (offset packet_type : ℕ)
    → offset ≤ length b
    → send_packet b offset packet_type ≡ some (framed packet_type (drop offset b))
unfolding send_packet
send_packet-framed b offset packet_type h =
    rw
      (
        slice-eq_some offset (length b) b h (omega arith),
        take_all (length b - offset) (drop offset b) (omega (arith, length-drop offset b)),
      )
      (ap some (
        copy-append (le_bytes packet_type) (drop offset b) (replicate 1296 0)
        ∙ ap (λ t. le_bytes packet_type ++ t) (copy_zeros 1296 (drop offset b))))

pub send_tile_packet-framed :
    (b : Bytes) (offset : ℕ)
    → offset ≤ length b
    → send_tile_packet b offset ≡ some (framed 1 (drop offset b))
unfolding send_tile_packet
send_tile_packet-framed b offset h = send_packet-framed b offset 1 h

-- `sendPacket` panics exactly if the offset is beyond the end of the data.
pub send_packet-eq_none :
    (b : Bytes) (offset packet_type : ℕ)
    → (send_packet b offset packet_type ≡ none) ↔ (length b < offset)
unfolding send_packet
send_packet-eq_none b offset packet_type = ground arith
