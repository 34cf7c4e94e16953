-- ===== src/Packet/Framing.antt =====
-- About `writePacket` and `readPacket`: the frame of a payload.
use mysqlmock.Base.{
  inl, inr, ℕ, suc, ◌+◌, ◌/◌, ◌^◌, ◌≤◌, ◌<◌, ◌≡◌, refl, ap, ◌∙◌, false, List, [], ◌∷◌, ◌++◌,
  append-nil, arith, leb, ◌==◌, ge→ltb, le→leb, length, get_or, take, drop, length-append,
  length-replicate, take-length_append, drop-length_append, take-append-drop, drop_all, Bytes,
}
use mysqlmock.Codec.{byte, little_endian}
use mysqlmock.Packet.{
  read_full, read_payload, net_write, release_packet_buffer, packet_buffer, put_header, copy_bytes,
  overwrite, Fault, success, failed, short, packet_too_large, Net, read_packet, write_packet,
}
use mysqlmock.Packet.Emits.{unless, Emits}
use mysqlmock.Errors.{ok, err}

lt→leb_false : (n : ℕ) → n < 2 ^ 24 → leb (2 ^ 24) n ≡ false
lt→leb_false n h = ground arith

-- The packet: three bytes of length, the sequence number, the payload.
abbrev pub frame : ℕ → Bytes → Bytes
frame seq payload =
    byte (length payload)
    ∷ byte (length payload / 256)
    ∷ byte (length payload / 65536)
    ∷ seq
    ∷ payload

copy_bytes-take :
    (target source : Bytes)
    → length source ≤ length target
    → take (length source) (copy_bytes target source) ≡ source
unfolding copy_bytes
copy_bytes-take target [] h = refl
copy_bytes-take [] (b ∷ source) h = absurd (omega arith)
copy_bytes-take (t ∷ target) (b ∷ source) h =
    ap (◌∷◌ b) (copy_bytes-take target source (omega arith))

-- Whatever the array held, its first bytes are the frame.
array-frame :
    (array : Bytes) (seq : ℕ) (payload : Bytes)
    → 4 + length payload ≤ length array
    → take (4 + length payload) (overwrite (put_header array (length payload) seq) 4 payload)
      ≡ frame seq payload
unfolding overwrite
array-frame (a ∷ b ∷ c ∷ d ∷ rest) seq payload h =
    let e : 4 + length payload ≡ suc (suc (suc (suc (length payload)))) = omega arith in
    rw e (rw (copy_bytes-take rest payload (omega arith)))
array-frame [] seq payload h = absurd (omega arith)
array-frame (a ∷ []) seq payload h = absurd (omega arith)
array-frame (a ∷ b ∷ []) seq payload h = absurd (omega arith)
array-frame (a ∷ b ∷ c ∷ []) seq payload h = absurd (omega arith)

length-packet_buffer : (kept : Bytes) (size : ℕ) → size ≤ length (packet_buffer kept size)
unfolding packet_buffer
length-packet_buffer kept size = ground (arith, length-replicate {A = ℕ} size 0)

net_write-Emits :
    (fs : List Fault) (packet : Bytes) (net : Net) (kept : Bytes)
    → net.faults ≡ fs
    → (let (result, net') = net_write fs packet net in
        Emits net (result, record net' { packet_buf = kept }) packet)
unfolding net_write
net_write-Emits [] packet net kept e = record {
  sent = packet;
  unsent = [];
  splits = append-nil packet;
  outbound_grows = refl;
  inbound_kept = refl;
  complete = inr refl;
  faultless = inr (refl, e);
}
net_write-Emits (success ∷ later) packet net kept e = record {
  sent = packet;
  unsent = [];
  splits = append-nil packet;
  outbound_grows = refl;
  inbound_kept = refl;
  complete = inr refl;
  faultless = inl (rw e refl);
}
net_write-Emits (failed n ∷ later) packet net kept e = record {
  sent = take n packet;
  unsent = drop n packet;
  splits = take-append-drop n packet;
  outbound_grows = refl;
  inbound_kept = refl;
  complete = inl refl;
  faultless = inl (rw e refl);
}
net_write-Emits (short n ∷ later) packet net kept e = record {
  sent = take n packet;
  unsent = drop n packet;
  splits = take-append-drop n packet;
  outbound_grows = refl;
  inbound_kept = refl;
  complete = unless _ (λ c. drop_all n packet (ground arith));
  faultless = inl (rw e refl);
}

-- Writing a payload of less than 2 ^ 24 bytes sends its frame, whatever the reused buffer
-- held: all of it on success, a beginning of it on a fault, and it succeeds without a fault.
pub write_packet-Emits :
    (seq : ℕ) (payload : Bytes) (net : Net)
    → length payload < 2 ^ 24
    → Emits net (write_packet seq payload net) (frame seq payload)
unfolding write_packet
write_packet-Emits seq payload net h =
    let size = 4 + length payload in
    let array = packet_buffer net.packet_buf size in
    rw
      (
        lt→leb_false (length payload) h,
        array-frame array seq payload (length-packet_buffer net.packet_buf size),
      )
      (net_write-Emits net.faults (frame seq payload) net
        (release_packet_buffer (overwrite (put_header array (length payload) seq) 4 payload)) refl)

-- A payload that three bytes of length cannot describe is refused, and nothing is sent.
pub write_packet_too_large :
    (seq : ℕ) (payload : Bytes) (net : Net)
    → 2 ^ 24 ≤ length payload
    → write_packet seq payload net ≡ (err packet_too_large, net)
unfolding write_packet
write_packet_too_large seq payload net h = rw (le→leb (2 ^ 24) (length payload) h)

frame_size :
    (n : ℕ) → n < 2 ^ 24 → little_endian (byte n ∷ byte (n / 256) ∷ byte (n / 65536) ∷ []) ≡ n
frame_size n h = omega arith

read_full-append :
    (chunk rest : Bytes) (net : Net)
    → read_full (length chunk) (record net { inbound = chunk ++ rest })
      ≡ (ok chunk, record net { inbound = rest })
unfolding read_full
read_full-append chunk rest net = rw (
  ge→ltb (length (chunk ++ rest)) (length chunk) (omega (arith, length-append chunk rest)),
  take-length_append chunk rest,
  drop-length_append chunk rest,
)

read_payload-append :
    (header payload rest : Bytes) (net : Net)
    → little_endian (take 3 header) ≡ length payload
    → read_payload header (record net { inbound = payload ++ rest })
      ≡ (ok (payload, get_or header 3 0), record net { inbound = rest })
unfolding read_payload
read_payload-append header [] rest net e = rw e
read_payload-append header (b ∷ payload) rest net e =
    let more : (length (b ∷ payload) == 0) ≡ false = ground arith in
    rw e (rw more (rw (read_full-append (b ∷ payload) rest net)))

read_packet-framed :
    (seq : ℕ) (payload rest : Bytes) (net : Net)
    → length payload < 2 ^ 24
    → read_packet (record net { inbound = frame seq payload ++ rest })
      ≡ (ok (payload, seq), record net { inbound = rest })
unfolding read_packet
read_packet-framed seq payload rest net h =
    let n = length payload in
    let header = byte n ∷ byte (n / 256) ∷ byte (n / 65536) ∷ seq ∷ [] in
    rw (read_full-append header (payload ++ rest) net)
      (read_payload-append header payload rest net (frame_size n h))

-- A client, or the server, that reads the bytes of a frame gets its payload and its sequence
-- number, and what follows is still to be read.
pub read_packet-frame :
    (seq : ℕ) (payload rest : Bytes) (net : Net)
    → length payload < 2 ^ 24
    → net.inbound ≡ frame seq payload ++ rest
    → read_packet net ≡ (ok (payload, seq), record net { inbound = rest })
read_packet-frame seq payload rest net h e =
    ap (λ i. read_packet (record net { inbound = i })) e ∙ read_packet-framed seq payload rest net h
