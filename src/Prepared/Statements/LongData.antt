-- ===== src/Prepared/Statements/LongData.antt =====
-- About `handleStmtSendLongData` and how `decodeExecuteArgs` takes up what it keeps.
use mysqlmock.Base.{
  ap₂, ℕ, zero, suc, ◌≤◌, ◌≡◌, refl, sym, ap, ◌∙◌, false, none, some, List, [], ◌∷◌, ◌++◌,
  append-nil, append_assoc, arith, if◌then◌else◌, ge→ltb, length, take, drop, slice, length-append,
  length-drop, take_all, drop_all, Bytes,
}
use mysqlmock.Value.{bytes, Runtime}
use mysqlmock.Map.{nat_eq, bytes_eq, lookup}
use mysqlmock.Map.Laws.{same_refl, lookup-insert}
use mysqlmock.Prepared.Arguments.{PreparedStatement, null_bit, decode_arg}
use mysqlmock.Prepared.Statements.{Conn, statement_id, add_long_data, handle_stmt_send_long_data}
use mysqlmock.Codec.{little_endian}
use mysqlmock.Errors.{ok}

-- The client sends one COM_STMT_SEND_LONG_DATA for each piece, each with the same six bytes that
-- name the statement and the parameter.
abbrev pub send_all : Bytes → List Bytes → Conn → Conn
send_all header [] c = c
send_all header (chunk ∷ chunks) c =
    send_all header chunks (handle_stmt_send_long_data (header ++ chunk) c).1

abbrev pub add_all : ℕ → List Bytes → PreparedStatement → PreparedStatement
add_all param_id [] stmt = stmt
add_all param_id (chunk ∷ chunks) stmt = add_all param_id chunks (add_long_data param_id chunk stmt)

abbrev pub concat : List Bytes → Bytes
concat [] = []
concat (chunk ∷ chunks) = chunk ++ concat chunks

abbrev pub param_of : Bytes → ℕ
param_of header = little_endian (drop 4 header)

take-append : (n : ℕ) (a b : Bytes) → n ≤ length a → take n (a ++ b) ≡ take n a
take-append zero a b h = refl
take-append (suc n) [] b h = absurd (omega arith)
take-append (suc n) (x ∷ a) b h = ap (◌∷◌ x) (take-append n a b (omega arith))

drop-append : (n : ℕ) (a b : Bytes) → n ≤ length a → drop n (a ++ b) ≡ drop n a ++ b
drop-append zero a b h = refl
drop-append (suc n) [] b h = absurd (omega arith)
drop-append (suc n) (x ∷ a) b h = drop-append n a b (omega arith)

send_found :
    (payload : Bytes) (stmt : PreparedStatement) (c : Conn)
    → 6 ≤ length payload
    → lookup (statement_id payload) c.statements ≡ some stmt
    → lookup (statement_id payload) (handle_stmt_send_long_data payload c).1.statements
      ≡ some (add_long_data (little_endian (slice payload 4 6)) (drop 6 payload) stmt)
unfolding handle_stmt_send_long_data
send_found payload stmt c h e =
    let id = statement_id payload in
    let stmt' = add_long_data (little_endian (slice payload 4 6)) (drop 6 payload) stmt in
    rw (ge→ltb (length payload) 6 h, e)
      (lookup-insert id id stmt' c.statements
        ∙ ap (λ b. if b then some stmt' else lookup id c.statements) (same_refl id))

-- What the handler reads from a header of six bytes and a chunk.
header_fields :
    (header chunk : Bytes)
    → length header ≡ 6
    → (statement_id (header ++ chunk) ≡ statement_id header)
      × (slice (header ++ chunk) 4 6 ≡ drop 4 header)
      × (drop 6 (header ++ chunk) ≡ chunk)
header_fields header chunk h = (
  ap little_endian (take-append 4 header chunk (omega arith)),
  ap (take 2) (drop-append 4 header chunk (omega arith))
      ∙ take-append 2 (drop 4 header) chunk (omega (arith, length-drop 4 header))
      ∙ take_all 2 (drop 4 header) (omega (arith, length-drop 4 header)),
  drop-append 6 header chunk (omega arith) ∙ ap (λ x. x ++ chunk) (drop_all 6 header (omega arith)),
)

send_step :
    (header chunk : Bytes) (stmt : PreparedStatement) (c : Conn)
    → length header ≡ 6
    → lookup (statement_id header) c.statements ≡ some stmt
    → lookup (statement_id header) (handle_stmt_send_long_data (header ++ chunk) c).1.statements
      ≡ some (add_long_data (param_of header) chunk stmt)
send_step header chunk stmt c h e =
    let f = header_fields header chunk h in
    let to = handle_stmt_send_long_data (header ++ chunk) c in
    ap (λ i. lookup i to.1.statements) (sym f.0)
    ∙ send_found (header ++ chunk) stmt c (omega (arith, length-append header chunk))
        (ap (λ i. lookup i c.statements) f.0 ∙ e)
    ∙ ap₂ (λ x y. some (add_long_data (little_endian x) y stmt)) f.1 f.2

send_all-found :
    (header : Bytes) (chunks : List Bytes) (stmt : PreparedStatement) (c : Conn)
    → length header ≡ 6
    → lookup (statement_id header) c.statements ≡ some stmt
    → lookup (statement_id header) (send_all header chunks c).statements
      ≡ some (add_all (param_of header) chunks stmt)
send_all-found header [] stmt c h e = e
send_all-found header (chunk ∷ chunks) stmt c h e =
    send_all-found header chunks (add_long_data (param_of header) chunk stmt)
      (handle_stmt_send_long_data (header ++ chunk) c).1 h (send_step header chunk stmt c h e)

add_long_data-sent :
    (p : ℕ) (chunk sent : Bytes) (stmt : PreparedStatement)
    → lookup p stmt.long_data ≡ some sent
    → lookup p (add_long_data p chunk stmt).long_data ≡ some (sent ++ chunk)
unfolding add_long_data
add_long_data-sent p chunk sent stmt e = rw e (
    lookup-insert p p (sent ++ chunk) stmt.long_data
    ∙ ap (λ b. if b then some (sent ++ chunk) else lookup p stmt.long_data) (same_refl p))

add_long_data-new :
    (p : ℕ) (chunk : Bytes) (stmt : PreparedStatement)
    → lookup p stmt.long_data ≡ none
    → lookup p (add_long_data p chunk stmt).long_data ≡ some chunk
unfolding add_long_data
add_long_data-new p chunk stmt e = rw e (
    lookup-insert p p chunk stmt.long_data
    ∙ ap (λ b. if b then some chunk else lookup p stmt.long_data) (same_refl p))

add_all-sent :
    (p : ℕ) (chunks : List Bytes) (sent : Bytes) (stmt : PreparedStatement)
    → lookup p stmt.long_data ≡ some sent
    → lookup p (add_all p chunks stmt).long_data ≡ some (sent ++ concat chunks)
add_all-sent p [] sent stmt e = e ∙ ap some (sym (append-nil sent))
add_all-sent p (chunk ∷ chunks) sent stmt e =
    add_all-sent p chunks (sent ++ chunk) (add_long_data p chunk stmt)
      (add_long_data-sent p chunk sent stmt e)
    ∙ ap some (append_assoc sent chunk (concat chunks))

-- The value that COM_STMT_EXECUTE decodes for a parameter that is not NULL in its bitmap, when
-- the client has sent one or more pieces ahead for this parameter of a prepared statement, none
-- being there before: the pieces in the order in which they were sent, whatever the packet holds
-- for values, of which nothing is used up.
pub send_all-arrives :
    (go : Runtime) (header chunk : Bytes) (chunks : List Bytes) (stmt : PreparedStatement)
    (c : Conn) (bitmap values : Bytes) (value_pos : ℕ)
    → length header ≡ 6
    → lookup (statement_id header) c.statements ≡ some stmt
    → lookup (param_of header) stmt.long_data ≡ none
    → null_bit bitmap (param_of header) ≡ false
    → (lookup (statement_id header) (send_all header (chunk ∷ chunks) c).statements
        ≡ some (add_all (param_of header) (chunk ∷ chunks) stmt))
      × (decode_arg go
            (add_all (param_of header) (chunk ∷ chunks) stmt)
            bitmap
            values
            (param_of header)
            value_pos
          ≡ ok (bytes (chunk ++ concat chunks), value_pos))
unfolding decode_arg
send_all-arrives go header chunk chunks stmt c bitmap values value_pos h found new not_null =
    let p = param_of header in
    let arrived : lookup p (add_all p (chunk ∷ chunks) stmt).long_data
        ≡ some (chunk ++ concat chunks) =
      add_all-sent p chunks chunk (add_long_data p chunk stmt)
        (add_long_data-new p chunk stmt new) in
    (send_all-found header (chunk ∷ chunks) stmt c h found, rw (not_null, arrived) refl)
