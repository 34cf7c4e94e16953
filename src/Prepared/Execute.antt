-- ===== src/Prepared/Execute.antt =====
-- About `decodeExecuteArgs` on the packets that clients send.
use mysqlmock.Codec.RoundTrip.{slice-append}
use mysqlmock.Base.{
  ap₂, ℕ, suc, ◌+◌, ◌*◌, ◌/◌, ◌<◌, ◌≡◌, refl, sym, ap, ◌∙◌, Bool, true, false, none, some, List, [],
  ◌∷◌, ◌++◌, append_assoc, arith, ◌==◌, if◌then◌else◌, ge→ltb, ==_refl, length, get_or, drop, slice,
  length-append, drop-length_append, Bytes,
}
use mysqlmock.Value.{Value, null, bytes, Runtime}
use mysqlmock.Map.{nat_eq, lookup}
use mysqlmock.Errors.{ok}
use mysqlmock.Prepared.Decode.{ParamType, byte_at, decode_prepared_value}
use mysqlmock.Prepared.Arguments.{
  PreparedStatement, bit_set, null_bit, decode_arg, decode_loop, param_type_at, param_types_at,
  decode_values, decode_execute_args,
}
use mysqlmock.Errors.{ok}

abbrev pub type_at : PreparedStatement → ℕ → ParamType
type_at stmt i = get_or stmt.param_types i (record { field_type = 0; is_unsigned = false })

-- From parameter `i` on, the client sends the values `args` as the bytes `body`: NULL in the
-- bitmap, or data sent ahead, or a value that reads back from its encoding.
pub data Sends (go : Runtime) (stmt : PreparedStatement) (bitmap : Bytes)
    : ℕ → List Value → Bytes → Type 0 where
  none_left : {i : ℕ} → Sends go stmt bitmap i [] []
  null_param :
      {i : ℕ} {args : List Value} {body : Bytes}
      → null_bit bitmap i ≡ true
      → Sends go stmt bitmap (i + 1) args body
      → Sends go stmt bitmap i (null ∷ args) body
  long_param :
      {i : ℕ} {args : List Value} {body : Bytes} {sent : Bytes}
      → null_bit bitmap i ≡ false
      → lookup i stmt.long_data ≡ some sent
      → Sends go stmt bitmap (i + 1) args body
      → Sends go stmt bitmap i (bytes sent ∷ args) body
  value_param :
      {i : ℕ} {arg : Value} {args : List Value} {body : Bytes} (code : Bytes)
      → null_bit bitmap i ≡ false
      → lookup i stmt.long_data ≡ none
      → ((rest : Bytes)
          → decode_prepared_value go (code ++ rest) (type_at stmt i) ≡ ok (arg, length code))
      → Sends go stmt bitmap (i + 1) args body
      → Sends go stmt bitmap i (arg ∷ args) (code ++ body)

module _ (go : Runtime) (stmt : PreparedStatement) (bitmap : Bytes) where
  decode_arg_null :
      (values : Bytes) (i at : ℕ)
      → null_bit bitmap i ≡ true
      → decode_arg go stmt bitmap values i at ≡ ok (null, at)
  unfolding decode_arg
  decode_arg_null values i at h = rw h

  decode_arg_long :
      (values sent : Bytes) (i at : ℕ)
      → null_bit bitmap i ≡ false
      → lookup i stmt.long_data ≡ some sent
      → decode_arg go stmt bitmap values i at ≡ ok (bytes sent, at)
  unfolding decode_arg
  decode_arg_long values sent i at h l = rw h (rw l)

  decode_arg_value :
      (front code body : Bytes) (i : ℕ) (arg : Value)
      → null_bit bitmap i ≡ false
      → lookup i stmt.long_data ≡ none
      → decode_prepared_value go (code ++ body) (type_at stmt i) ≡ ok (arg, length code)
      → decode_arg go stmt bitmap (front ++ (code ++ body)) i (length front)
        ≡ ok (arg, length front + length code)
  unfolding decode_arg
  decode_arg_value front code body i arg h l d =
      rw h (rw l (rw (drop-length_append front (code ++ body)) (rw d)))

  decode_loop-Sends :
      {i : ℕ} {args : List Value} {body : Bytes} (front : Bytes)
      → Sends go stmt bitmap i args body
      → decode_loop go stmt bitmap (front ++ body) (length args) i (length front)
        ≡ ok (args, length front + length body)
  unfolding decode_loop
  decode_loop-Sends front none_left = ap (λ (n : ℕ). ok ([], n)) (omega arith)
  decode_loop-Sends front (null_param {i} {args} {body} h later) =
      rw (decode_arg_null (front ++ body) i (length front) h) (rw (decode_loop-Sends front later))
  decode_loop-Sends front (long_param {i} {args} {body} {sent} h l later) =
      rw (decode_arg_long (front ++ body) sent i (length front) h l)
        (rw (decode_loop-Sends front later))
  decode_loop-Sends front (value_param {i} {arg} {args} {body} code h l d later) =
      rw (decode_arg_value front code body i arg h l (d body)) (
        let whole : front ++ (code ++ body) ≡ (front ++ code) ++ body =
          sym (append_assoc front code body) in
        let step : decode_loop go stmt bitmap (front ++ (code ++ body)) (length args) (i + 1)
              (length front + length code)
            ≡ ok (args, length front + length (code ++ body)) =
          ap₂ (λ v n. decode_loop go stmt bitmap v (length args) (i + 1) n) whole
            (sym (length-append front code))
          ∙ decode_loop-Sends (front ++ code) later
          ∙ ap (λ (n : ℕ). ok (args, n))
              (omega (arith, length-append front code, length-append code body)) in
        rw step)

  decode_values-Sends :
      {args : List Value} {body : Bytes}
      → stmt.param_count ≡ length args
      → Sends go stmt bitmap 0 args body
      → decode_values go stmt bitmap body ≡ ok args
  unfolding decode_values
  decode_values-Sends {args} {body} n s =
      let loop : decode_loop go stmt bitmap body stmt.param_count 0 0 ≡ ok (args, length body) =
        ap (λ (k : ℕ). decode_loop go stmt bitmap body k 0 0) n
        ∙ decode_loop-Sends [] s
        ∙ ap (λ (m : ℕ). ok (args, m)) (omega arith) in
      rw loop (rw (==_refl (length body)))

-- The two bytes of each parameter's type.
abbrev pub type_bytes : List ParamType → Bytes
type_bytes [] = []
type_bytes (t ∷ ts) = t.field_type ∷ (if t.is_unsigned then 0x80 else 0) ∷ type_bytes ts

get_or-append :
    (front rest : Bytes) (k : ℕ) → get_or (front ++ rest) (length front + k) 0 ≡ get_or rest k 0
get_or-append [] rest k = ap (λ (i : ℕ). get_or rest i 0) (omega arith)
get_or-append (b ∷ front) rest k =
    let e : length (b ∷ front) + k ≡ suc (length front + k) = omega arith in
    ap (λ i. get_or (b ∷ (front ++ rest)) i 0) e ∙ get_or-append front rest k

unsigned_flag : (u : Bool) → bit_set (if u then 0x80 else 0) 7 ≡ u
unsigned_flag true = refl
unsigned_flag false = refl

param_type_at-append :
    (front rest : Bytes) (t : ParamType)
    → param_type_at
        (front ++ (t.field_type ∷ (if t.is_unsigned then 0x80 else 0) ∷ rest))
        (length front)
      ≡ t
unfolding param_type_at
param_type_at-append front rest t =
    let tail = t.field_type ∷ (if t.is_unsigned then 0x80 else 0) ∷ rest in
    let here : length front ≡ length front + 0 = omega arith in
    let first : byte_at (front ++ tail) (length front) ≡ t.field_type =
      ap (byte_at (front ++ tail)) here ∙ get_or-append front tail 0 in
    let second : bit_set (byte_at (front ++ tail) (length front + 1)) 7 ≡ t.is_unsigned =
      ap (λ b. bit_set b 7) (get_or-append front tail 1) ∙ unsigned_flag t.is_unsigned in
    λ i. record { field_type = first i; is_unsigned = second i }

param_types_at-append :
    (front : Bytes) (ts : List ParamType) (rest : Bytes)
    → param_types_at (length ts) (front ++ (type_bytes ts ++ rest)) (length front) ≡ ts
unfolding param_types_at
param_types_at-append front [] rest = refl
param_types_at-append front (t ∷ ts) rest =
    let pair = t.field_type ∷ (if t.is_unsigned then 0x80 else 0) ∷ [] in
    ap₂ ◌∷◌ (param_type_at-append front (type_bytes ts ++ rest) t) (
      ap₂ (param_types_at (length ts)) (sym (append_assoc front pair (type_bytes ts ++ rest)))
        (sym (length-append front pair))
      ∙ param_types_at-append (front ++ pair) ts rest)

length-type_bytes : (ts : List ParamType) → length (type_bytes ts) ≡ length ts * 2
length-type_bytes [] = refl
length-type_bytes (t ∷ ts) = omega (arith, length-type_bytes ts)

module _ (go : Runtime) (stmt : PreparedStatement) (head bitmap : Bytes) (ts : List ParamType)
    (body : Bytes) where
  -- A packet that binds the types `ts`: nine bytes of header, the NULL bitmap, the flag of new
  -- types, the types and the values.
  abbrev pub execute_packet : Bytes
  execute_packet = head ++ (bitmap ++ (1 ∷ (type_bytes ts ++ body)))

  abbrev pub with_types : PreparedStatement
  with_types = record stmt { param_types = ts }

  nulls_lem :
      length head ≡ 9
      → length bitmap ≡ (stmt.param_count + 7) / 8
      → slice execute_packet 9 (9 + (stmt.param_count + 7) / 8) ≡ bitmap
  nulls_lem h b =
      ap₂ (slice execute_packet) (sym h) (omega arith)
      ∙ ap (λ x. slice x (length head) (length head + length bitmap))
          (sym (append_assoc head bitmap (1 ∷ (type_bytes ts ++ body))))
      ∙ slice-append head bitmap (1 ∷ (type_bytes ts ++ body))

  types_lem :
      length head ≡ 9
      → length bitmap ≡ (stmt.param_count + 7) / 8
      → stmt.param_count ≡ length ts
      → param_types_at stmt.param_count execute_packet (9 + (stmt.param_count + 7) / 8 + 1) ≡ ts
  types_lem h b t =
      let front = head ++ (bitmap ++ 1 ∷ []) in
      let whole : execute_packet ≡ front ++ (type_bytes ts ++ body) =
        ap (λ x. head ++ x) (sym (append_assoc bitmap (1 ∷ []) (type_bytes ts ++ body)))
        ∙ sym (append_assoc head (bitmap ++ 1 ∷ []) (type_bytes ts ++ body)) in
      let at : 9 + (stmt.param_count + 7) / 8 + 1 ≡ length front =
        omega (arith, length-append head (bitmap ++ 1 ∷ []), length-append bitmap (1 ∷ [])) in
      ap (λ (k : ℕ). param_types_at k execute_packet (9 + (stmt.param_count + 7) / 8 + 1)) t
      ∙ ap₂ (param_types_at (length ts)) whole at
      ∙ param_types_at-append front ts body

  values_lem :
      length head ≡ 9
      → length bitmap ≡ (stmt.param_count + 7) / 8
      → stmt.param_count ≡ length ts
      → drop (9 + (stmt.param_count + 7) / 8 + 1 + stmt.param_count * 2) execute_packet ≡ body
  values_lem h b t =
      let front = head ++ (bitmap ++ (1 ∷ type_bytes ts)) in
      let whole : execute_packet ≡ front ++ body =
        ap (λ x. head ++ x) (sym (append_assoc bitmap (1 ∷ type_bytes ts) body))
        ∙ sym (append_assoc head (bitmap ++ (1 ∷ type_bytes ts)) body) in
      let at : 9 + (stmt.param_count + 7) / 8 + 1 + stmt.param_count * 2 ≡ length front = omega (
        arith,
        length-append head (bitmap ++ (1 ∷ type_bytes ts)),
        length-append bitmap (1 ∷ type_bytes ts),
        length-type_bytes ts,
      ) in
      ap₂ drop at whole ∙ drop-length_append front body

  -- The server takes from such a packet the arguments that the client put into it, and
  -- remembers the types; the statement has at least one parameter.
  pub decode_execute_args-packet :
      {args : List Value}
      → length head ≡ 9
      → length bitmap ≡ (stmt.param_count + 7) / 8
      → stmt.param_count ≡ length ts
      → stmt.param_count ≡ length args
      → 0 < stmt.param_count
      → Sends go with_types bitmap 0 args body
      → decode_execute_args go stmt execute_packet ≡ (ok args, with_types)
  unfolding decode_execute_args
  decode_execute_args-packet {args} h b t n p s =
      let nl = (stmt.param_count + 7) / 8 in
      let packet = execute_packet in
      let size : length packet ≡ 9 + nl + 1 + stmt.param_count * 2 + length body = omega (
        arith,
        length-append head (bitmap ++ (1 ∷ (type_bytes ts ++ body))),
        length-append bitmap (1 ∷ (type_bytes ts ++ body)),
        length-append (type_bytes ts) body,
        length-type_bytes ts,
      ) in
      let bound : byte_at packet (9 + nl) ≡ 1 =
        ap₂ byte_at (sym (append_assoc head bitmap (1 ∷ (type_bytes ts ++ body))))
          (omega (arith, length-append head bitmap))
        ∙ get_or-append (head ++ bitmap) (1 ∷ (type_bytes ts ++ body)) 0 in
      let types : param_types_at stmt.param_count packet (9 + nl + 1) ≡ ts = types_lem h b t in
      let nulls : slice packet 9 (9 + nl) ≡ bitmap = nulls_lem h b in
      let values : drop (9 + nl + 1 + stmt.param_count * 2) packet ≡ body = values_lem h b t in
      let some_params : (stmt.param_count == 0) ≡ false = ground arith in
      rw some_params (
        rw (ge→ltb (length packet) (9 + nl + 1) (omega arith)) (
          rw bound (
            rw (ge→ltb (length packet) (9 + nl + 1 + stmt.param_count * 2) (omega arith)) (
              rw (types, nulls, values)
                (ap (λ r. (r, with_types)) (decode_values-Sends go with_types bitmap n s))))))
