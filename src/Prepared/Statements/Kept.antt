-- ===== src/Prepared/Statements/Kept.antt =====
-- About the handlers that make no statement, and the statements of a connection.
use mysqlmock.Codec.{little_endian}
use mysqlmock.Base.{
  subst, ℕ, ◌≤◌, ◌<◌, ◌≡◌, refl, sym, ap, ◌∙◌, inl, inr, none, some, [], arith, ltb, ◌==◌,
  if◌then◌else◌, ==_iff, Bool-cases, Option-cases, length, drop, slice, Bytes,
}
use mysqlmock.Map.{nat_eq, bytes_eq, Assoc, lookup, insert, delete}
use mysqlmock.Map.Laws.{lookup-insert, lookup-delete}
use mysqlmock.Prepared.Arguments.{PreparedStatement, decode_execute_args}
use mysqlmock.Prepared.Statements.{
  Conn, statement_id, add_long_data, handle_stmt_send_long_data, handle_stmt_close,
  handle_stmt_reset,
}
use mysqlmock.Prepared.Queries.{
  Outcome, ok_response, result_set, query_error, disconnect, unsupported, record_result, Server,
}
use mysqlmock.Prepared.Placeholders.{count_placeholders}

-- What holds of a statement that stands under number `j`.
pub record Kept (next j : ℕ) (stmt : PreparedStatement) : Type 0 where
  pub below : j < next
  pub own_id : stmt.id ≡ j
  pub counted : stmt.param_count ≡ count_placeholders stmt.sql
  pub few : stmt.param_count ≤ 65535

abbrev pub AllKept : ℕ → Assoc ℕ PreparedStatement → Type 0
AllKept next m = (j : ℕ) (stmt : PreparedStatement) → lookup j m ≡ some stmt → Kept next j stmt

pub AllKept-insert :
    (next id : ℕ) (stmt : PreparedStatement) (m : Assoc ℕ PreparedStatement)
    → AllKept next m
    → Kept next id stmt
    → AllKept next (insert id stmt m)
AllKept-insert next id stmt m all k j found e = elim (Bool-cases (id == j)) [
  | inl p ↦
      let here : some stmt ≡ some found =
        sym (lookup-insert id j stmt m ∙ ap (λ b. if b then some stmt else lookup j m) p) ∙ e in
      subst (λ i. Kept next i found) ((==_iff id j).0 p) (subst (Kept next id) (cc) k)
  | inr p ↦
      all j found
        (sym (lookup-insert id j stmt m ∙ ap (λ b. if b then some stmt else lookup j m) p) ∙ e)
]

AllKept-delete :
    (next id : ℕ) (m : Assoc ℕ PreparedStatement) → AllKept next m → AllKept next (delete id m)
AllKept-delete next id m all j stmt e = elim (Bool-cases (id == j)) [
  | inl p ↦
      let gone : none ≡ some stmt =
        sym (lookup-delete id j m ∙ ap (λ b. if b then none else lookup j m) p) ∙ e in
      cc
  | inr p ↦ all j stmt (sym (lookup-delete id j m ∙ ap (λ b. if b then none else lookup j m) p) ∙ e)
]

pub AllKept-later :
    (next later : ℕ) (m : Assoc ℕ PreparedStatement)
    → next ≤ later
    → AllKept next m
    → AllKept later m
AllKept-later next later m h all j stmt e =
    let k = all j stmt e in
    record { below = omega (arith, k.below); own_id = k.own_id; counted = k.counted; few = k.few }

-- A handler that makes no statement keeps all of them.
pub record Keeps (c c' : Conn) : Type 0 where
  pub same_next : c'.next_statement_id ≡ c.next_statement_id
  pub kept : (next : ℕ) → AllKept next c.statements → AllKept next c'.statements

pub changed-Keeps :
    (c : Conn) (id : ℕ) (stmt stmt' : PreparedStatement)
    → lookup id c.statements ≡ some stmt
    → stmt'.id ≡ stmt.id
    → stmt'.sql ≡ stmt.sql
    → stmt'.param_count ≡ stmt.param_count
    → Keeps c (record c { statements = insert id stmt' c.statements })
changed-Keeps c id stmt stmt' e same_id same_sql same_count = record {
  same_next = refl;
  kept = λ next all.
      let k = all id stmt e in
      AllKept-insert next id stmt' c.statements all (record {
        below = k.below;
        own_id = same_id ∙ k.own_id;
        counted = same_count ∙ k.counted ∙ ap count_placeholders (sym same_sql);
        few = rw same_count k.few;
      });
}

pub same-Keeps : (c : Conn) → Keeps c c
same-Keeps c = record { same_next = refl; kept = λ next all. all }

pub send_long_data-Keeps :
    (payload : Bytes) (c : Conn) → Keeps c (handle_stmt_send_long_data payload c).1
unfolding handle_stmt_send_long_data add_long_data
send_long_data-Keeps payload c = elim (Bool-cases (ltb (length payload) 6)) [
  | inl p ↦ rw p (same-Keeps c)
  | inr p ↦ rw p (elim (Option-cases (lookup (statement_id payload) c.statements)) [
    | inl e ↦ rw e (same-Keeps c)
    | inr (stmt, e) ↦ rw e (
        changed-Keeps c (statement_id payload) stmt
          (add_long_data (little_endian (slice payload 4 6)) (drop 6 payload) stmt) e refl refl
          refl)
  ])
]

pub close-Keeps : (payload : Bytes) (c : Conn) → Keeps c (handle_stmt_close payload c)
unfolding handle_stmt_close
close-Keeps payload c = elim (Bool-cases (ltb (length payload) 4)) [
  | inl p ↦ rw p (same-Keeps c)
  | inr p ↦ rw p (record {
    same_next = refl;
    kept = λ next. AllKept-delete next (statement_id payload) c.statements;
  })
]

pub reset-Keeps : (payload : Bytes) (c : Conn) → Keeps c (handle_stmt_reset payload c).1
unfolding handle_stmt_reset
reset-Keeps payload c = elim (Bool-cases (ltb (length payload) 4)) [
  | inl p ↦ rw p (same-Keeps c)
  | inr p ↦ rw p (elim (Option-cases (lookup (statement_id payload) c.statements)) [
    | inl e ↦ rw e (same-Keeps c)
    | inr (stmt, e) ↦ rw e (
        changed-Keeps c (statement_id payload) stmt (record stmt { long_data = [] }) e refl refl
          refl)
  ])
]

pub decode_execute_args-same :
    {W : Type 0} (server : Server W) (stmt : PreparedStatement) (payload : Bytes)
    → ((decode_execute_args server.go stmt payload).1.id ≡ stmt.id)
      × ((decode_execute_args server.go stmt payload).1.sql ≡ stmt.sql)
      × ((decode_execute_args server.go stmt payload).1.param_count ≡ stmt.param_count)
unfolding decode_execute_args
decode_execute_args-same server stmt payload = ground arith

pub record_result-Keeps : (o : Outcome) (c c' : Conn) → Keeps c c' → Keeps c (record_result o c')
unfolding record_result
record_result-Keeps (ok_response r) c c' k = record { same_next = k.same_next; kept = k.kept }
record_result-Keeps (result_set rs) c c' k = record { same_next = k.same_next; kept = k.kept }
record_result-Keeps (query_error e) c c' k = k
record_result-Keeps disconnect c c' k = k
record_result-Keeps unsupported c c' k = k
