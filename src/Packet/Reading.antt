-- ===== src/Packet/Reading.antt =====
-- About the bytes that are still to come, in `readPacket`.
use mysqlmock.Base.{
  ℕ, ◌+◌, ◌≤◌, ◌<◌, ◌≡◌, refl, ap, ◌∙◌, [], arith, length, take, length-drop, Bytes,
}
use mysqlmock.Errors.{Result, ok, err}
use mysqlmock.Packet.{end_of_input, Net, NetError, continue, read_packet, read_full, read_payload}
use mysqlmock.Codec.{little_endian}

read_full-length :
    (size : ℕ) (net : Net) (chunk : Bytes)
    → (read_full size net).0 ≡ ok chunk
    → length (read_full size net).1.inbound + size ≡ length net.inbound
unfolding read_full
read_full-length size net chunk e = ground (arith, length-drop size net.inbound)

read_payload-length :
    (header : Bytes) (net : Net) → length (read_payload header net).1.inbound ≤ length net.inbound
unfolding read_payload read_full
read_payload-length header net =
    ground (arith, length-drop (little_endian (take 3 header)) net.inbound)

pub read_packet-shorter :
    (net : Net) (payload : Bytes × ℕ)
    → (read_packet net).0 ≡ ok payload
    → length (read_packet net).1.inbound < length net.inbound
unfolding read_packet
read_packet-shorter net payload found =
    by_header (read_full 4 net).0 (read_full 4 net).1 (read_full-length 4 net) found
  where
    by_header :
        (r : Result NetError Bytes) (n : Net)
        → ((chunk : Bytes) → r ≡ ok chunk → length n.inbound + 4 ≡ length net.inbound)
        → (continue r read_payload n).0 ≡ ok payload
        → length (continue r read_payload n).1.inbound < length net.inbound
    by_header (ok header) n l f = omega (arith, l header refl, read_payload-length header n)
    by_header (err e) n l f = absurd (ground (arith, f))

-- At the end of the input no packet is read.
pub read_packet_at_end :
    (net : Net)
    → net.inbound ≡ []
    → read_packet net ≡ (err end_of_input, record net { inbound = [] })
unfolding read_packet read_full
read_packet_at_end net e = ap (λ i. read_packet (record net { inbound = i })) e ∙ refl
