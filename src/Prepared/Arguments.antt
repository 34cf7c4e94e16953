-- ===== src/Prepared/Arguments.antt =====
-- Reading the arguments of COM_STMT_EXECUTE (`decodeExecuteArgs`).
use mysqlmock.Base.{
  ℕ, zero, suc, ◌+◌, ◌*◌, ◌/◌, ◌%◌, ◌^◌, Bool, false, not, none, some, List, [], ◌∷◌, ltb, ◌==◌,
  if◌then◌else◌, length, get_or, drop, slice, Bytes,
}
use mysqlmock.Value.{Value, null, bytes, Runtime}
use mysqlmock.Map.{nat_eq, Assoc, lookup}
use mysqlmock.Errors.{
  DecodeError, malformed_header, malformed_types, types_omitted, in_parameter, malformed_values,
  Result, ok, err, ◌>>=◌,
}
use mysqlmock.Prepared.Decode.{ParamType, byte_at, decode_prepared_value}

pub record PreparedStatement : Type 0 where
  pub id : ℕ
  pub sql : Bytes
  pub param_count : ℕ
  pub param_types : List ParamType
  -- the data sent ahead, by parameter number
  pub long_data : Assoc ℕ Bytes

-- Bit `k` of a byte.
abbrev pub bit_set : ℕ → ℕ → Bool
bit_set b k = (b / 2 ^ k) % 2 == 1

-- `nullBitmap[i/8] & (1 << (i & 7)) != 0`
abbrev pub null_bit : Bytes → ℕ → Bool
null_bit bitmap i = bit_set (byte_at bitmap (i / 8)) (i % 8)

unfoldable pub in_param : {A : Type 0} → ℕ → Result DecodeError A → Result DecodeError A
in_param i (ok a) = ok a
in_param i (err e) = err (in_parameter (i + 1) e)

-- Parameter number `i`, from the values that begin at `value_pos`: the value, and the position
-- behind it.
unfoldable pub decode_arg :
    Runtime → PreparedStatement → Bytes → Bytes → ℕ → ℕ → Result DecodeError (Value × ℕ)
unfolding decode_prepared_value in_param lookup
decode_arg go stmt bitmap values i value_pos =
    if null_bit bitmap i then ok (null, value_pos) else elim (lookup i stmt.long_data) [
      | some sent ↦ ok (bytes sent, value_pos)
      | none ↦
          in_param i (
            decode_prepared_value go (drop value_pos values)
              (get_or stmt.param_types i (record { field_type = 0; is_unsigned = false })))
          >>= λ (value, n). ok (value, value_pos + n)
    ]

-- The parameters from number `i` on, of which `remaining` are left.
unfoldable pub decode_loop :
    Runtime → PreparedStatement → Bytes → Bytes → ℕ → ℕ → ℕ → Result DecodeError (List Value × ℕ)
unfolding decode_arg
decode_loop go stmt bitmap values zero i value_pos = ok ([], value_pos)
decode_loop go stmt bitmap values (suc remaining) i value_pos =
    decode_arg go stmt bitmap values i value_pos >>= λ (value, next_pos).
    decode_loop go stmt bitmap values remaining (i + 1) next_pos >>= λ (later, end).
    ok (value ∷ later, end)

unfoldable pub param_type_at : Bytes → ℕ → ParamType
param_type_at payload at = record {
  field_type = byte_at payload at;
  is_unsigned = bit_set (byte_at payload (at + 1)) 7;
}

-- The `count` pairs of bytes from position `at` on.
unfoldable pub param_types_at : ℕ → Bytes → ℕ → List ParamType
unfolding param_type_at
param_types_at zero payload at = []
param_types_at (suc count) payload at =
    param_type_at payload at ∷ param_types_at count payload (at + 2)

-- The values behind the header; all of them have to be used up.
unfoldable pub decode_values :
    Runtime → PreparedStatement → Bytes → Bytes → Result DecodeError (List Value)
decode_values go stmt bitmap values =
    decode_loop go stmt bitmap values stmt.param_count 0 0 >>= λ (args, end).
    if end == length values then ok args else err malformed_values

-- `decodeExecuteArgs`: the arguments, and the statement, which remembers the types.
unfoldable pub decode_execute_args :
    Runtime → PreparedStatement → Bytes → Result DecodeError (List Value) × PreparedStatement
decode_execute_args go stmt payload =
    let null_len = (stmt.param_count + 7) / 8 in
    let bitmap = slice payload 9 (9 + null_len) in
    let bound = byte_at payload (9 + null_len) in
    let types_pos = 9 + null_len + 1 in
    let stmt' = record stmt { param_types = param_types_at stmt.param_count payload types_pos } in
    if stmt.param_count == 0
    then (ok [], stmt)
    else if ltb (length payload) (9 + null_len + 1)
    then (err malformed_header, stmt)
    else if bound == 1
    then (if ltb (length payload) (types_pos + stmt.param_count * 2)
        then (err malformed_types, stmt)
        else (
          decode_values go stmt' bitmap (drop (types_pos + stmt.param_count * 2) payload),
          stmt',
        ))
    else if not (length stmt.param_types == stmt.param_count)
    then (err types_omitted, stmt)
    else (decode_values go stmt bitmap (drop types_pos payload), stmt)
