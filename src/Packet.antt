-- ===== src/Packet.antt =====
-- Packets on the network connection and the packet buffer that is kept between writes (pkg/mysqlmock/protocol_codec.go).
pub mod Framing
pub mod Emits
pub mod Reading
use mysqlmock.Base.{
  ℕ, zero, suc, ◌+◌, ◌-◌, ◌*◌, ◌/◌, ◌%◌, ◌^◌, ◌≤◌, ◌<◌, ◌≡◌, refl, sym, ap, ◌∙◌, ◌≢◌, ◌↔◌, ◌⊎◌, inl,
  inr, Bool, true, false, not, ◌&&◌, ◌||◌, Option, none, some, List, [], ◌∷◌, ◌++◌, map, append-nil,
  append_assoc, arith, ltb, leb, ◌==◌, if◌then◌else◌, ltb→lt, ltb→ge, lt→ltb, ge→ltb, leb→le,
  le→leb, ==_iff, ==_refl, tests, Bool-cases, Option-cases, length, get_elem?, get_or, set, take,
  drop, replicate, slice, length-append, length-take, length-drop, length-replicate, length-set,
  take-length_append, drop-length_append, take-append-drop, take_all, drop_all, drop-drop, Bytes,
  codes, beq, beq_iff, beq_refl, lower_byte, upper_byte, to_lower, to_upper, equal_fold, has_prefix,
  trim_prefix, has_suffix, trim_suffix, contains, is_space, trim_space, fields, join, index_byte,
}
use mysqlmock.Value.{
  SignedKind, int, int8, int16, int32, int64, UnsignedKind, uint, uint8, uint16, uint32, uint64,
  FloatKind, float32, float64, Time, Value, null, bytes, text, time, bool, signed_num, unsigned_num,
  float_num, other, Runtime, pad, format_time, sprint, text_value,
}
use mysqlmock.Codec.{
  byte, append_uint16, append_uint32, append_uint64, append_len_enc_int, append_len_enc_bytes,
  append_len_enc_string, little_endian, read_len_enc_int, read_len_enc_bytes,
}
use mysqlmock.Rows.{
  ResultColumn, no_column, ResultSet, column_definition, all_digits, text_value_for_column,
  append_plain_value, append_text_value_for_column, append_cell, text_row_from, text_row,
  field_type_from_value, mysql_field_type,
}
use mysqlmock.Errors.{Result, ok, err}
use Prim.Native.Nat.{bit_and}

-- What the operating system does with one call of Write.
pub data Fault : Type 0 where
  success : Fault
  -- So many bytes are taken, and Write returns an error.
  failed : ℕ → Fault
  -- So many bytes at most are taken, and Write returns their number.
  short : ℕ → Fault

pub data NetError : Type 0 where
  packet_too_large : NetError
  write_failed : NetError
  short_write : NetError
  end_of_input : NetError
  malformed_long_data : NetError
  rule_disconnect : NetError
  empty_command_packet : NetError
  handshake_refused : NetError

-- The connection: bytes to come, bytes that the client has been sent, the faults of the coming
-- writes (none when the list has run out), and the array behind `packetBuf`.
pub record Net : Type 0 where
  pub inbound : Bytes
  pub outbound : Bytes
  pub faults : List Fault
  pub packet_buf : Bytes

-- A method that changes the connection and may return an error; what was sent stays sent.
abbrev pub Exec : Type 0 → Type 0
Exec A = Net → Result NetError A × Net

abbrev pub pure : {A : Type 0} → A → Exec A
pure a net = (ok a, net)

abbrev pub continue : {A B : Type 0} → Result NetError A → (A → Exec B) → Exec B
continue (ok a) f net = f a net
continue (err e) f net = (err e, net)

infixl 5 ◌>>=◌ ◌>>◌
abbrev pub ◌>>=◌ : {A B : Type 0} → Exec A → (A → Exec B) → Exec B
◌>>=◌ m f net = continue (m net).0 f (m net).1

abbrev pub ◌>>◌ : {B : Type 0} → Exec (Unit {0}) → Exec B → Exec B
m >> k = m >>= λ _. k

-- io.ReadFull(c.netConn, buffer) of `size` bytes.
read_full : ℕ → Exec Bytes
read_full size net =
    if ltb (length net.inbound) size
    then (err end_of_input, record net { inbound = [] })
    else (ok (take size net.inbound), record net { inbound = drop size net.inbound })

read_payload : Bytes → Exec (Bytes × ℕ)
read_payload header =
    let size = little_endian (take 3 header) in
    let seq = get_or header 3 0 in
    if size == 0 then pure ([], seq) else (read_full size >>= λ payload. pure (payload, seq))

-- The payload and the sequence number of the next packet.
unfoldable pub read_packet : Exec (Bytes × ℕ)
unfolding read_full read_payload
read_packet = read_full 4 >>= read_payload

-- copy(target, source)
copy_bytes : Bytes → Bytes → Bytes
copy_bytes target [] = target
copy_bytes [] (b ∷ source) = []
copy_bytes (t ∷ target) (b ∷ source) = b ∷ copy_bytes target source

-- copy(target[at:], source)
overwrite : Bytes → ℕ → Bytes → Bytes
unfolding copy_bytes
overwrite target at source = take at target ++ copy_bytes (drop at target) source

-- The array that `packetBuffer` slices: the kept one, if it is large enough.
packet_buffer : Bytes → ℕ → Bytes
packet_buffer kept size = if ltb (length kept) size then replicate size 0 else kept

max_retained_packet_buffer : ℕ
max_retained_packet_buffer = 65536

release_packet_buffer : Bytes → Bytes
unfolding max_retained_packet_buffer
release_packet_buffer array = if ltb max_retained_packet_buffer (length array) then [] else array

-- The four bytes in front of a payload.
abbrev put_header : Bytes → ℕ → ℕ → Bytes
put_header array size seq =
    set (set (set (set array 0 (byte size)) 1 (byte (size / 256))) 2 (byte (size / 65536))) 3 seq

written : Fault → Bytes → Net → Result NetError Unit × Net
written success packet net = (ok tt, record net { outbound = net.outbound ++ packet })
written (failed n) packet net =
    (err write_failed, record net { outbound = net.outbound ++ take n packet })
written (short n) packet net = (
  if ltb n (length packet) then err short_write else ok tt,
  record net { outbound = net.outbound ++ take n packet },
)

-- One call of Write, which meets the next fault.
net_write : List Fault → Bytes → Exec Unit
unfolding written
net_write [] packet net = written success packet net
net_write (f ∷ later) packet net = written f packet (record net { faults = later })

unfoldable pub write_packet : ℕ → Bytes → Exec Unit
unfolding overwrite packet_buffer release_packet_buffer net_write
write_packet seq payload net =
    if leb (2 ^ 24) (length payload)
    then (err packet_too_large, net)
    else (let size = 4 + length payload in
        let array =
          overwrite (put_header (packet_buffer net.packet_buf size) (length payload) seq) 4
            payload in
        let (result, net') = net_write net.faults (take size array) net in
        (result, record net' { packet_buf = release_packet_buffer array }))
