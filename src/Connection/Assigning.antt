-- ===== src/Connection/Assigning.antt =====
-- What SET does to the variables that the client reads (`setVariables`, `compatVariable`).
use mysqlmock.Scanner.TopLevel.{split_sql_top_level_list}
use mysqlmock.Base.{
  refl, ap, ◌∙◌, Bool-cases, inl, inr, true, ap, drop, ◌∙◌, inr, trim_space, inl, Bool-cases, ◌∷◌,
  List, ℕ, ◌≡◌, Bool, false, not, ◌&&◌, ◌||◌, Option, none, some, [], arith, if◌then◌else◌, Bytes,
  codes, beq,
}
use mysqlmock.Map.{bytes_eq, lookup, insert, is_some}
use mysqlmock.Map.Laws.{lookup-insert}
use mysqlmock.Connection.{SessionVariables, Settings, server_status_autocommit, has_flag}
use mysqlmock.Connection.Variables.{
  parse_set_variable_assignment, set_variables, assign_all, assign, choose, own_variable,
  normalize_system_variable_name, normalize_system_variable_value, set_variable, compat_variable,
  own_names,
}
use mysqlmock.Connection.Sorting.{one_of}

-- The names that the connection keeps values for itself.
pub own_variable-one_of :
    (flags : ℕ) (v : SessionVariables) (j : Bytes)
    → is_some (own_variable flags v j) ≡ one_of j own_names
unfolding own_variable one_of
own_variable-one_of flags v j =
    five (beq j (codes "autocommit")) (beq j (codes "character_set_client"))
      (beq j (codes "character_set_connection")) (beq j (codes "character_set_results"))
      (beq j (codes "collation_connection"))
      (if has_flag server_status_autocommit flags then codes "1" else codes "0")
      v.character_set_client v.character_set_connection v.character_set_results
      v.collation_connection
  where
    five :
        (p q r s t : Bool) (a b c d e : Bytes)
        → is_some (
            if p
            then some a
            else if q
            then some b
            else if r
            then some c
            else if s
            then some d
            else if t
            then some e
            else none)
          ≡ (p || (q || (r || (s || (t || false)))))
    five p q r s t a b c d e = ground arith

-- One assignment: what is read under the names afterwards.
set_variable-compat_variable :
    (cfg : Settings) (in_transaction : Bool) (name value : Bytes) (v : SessionVariables) (flags : ℕ)
    (j : Bytes)
    → beq (normalize_system_variable_name name) [] ≡ false
    → compat_variable cfg flags (set_variable cfg in_transaction name value v).0 j ≡ (
        if beq (normalize_system_variable_name name) j && not (one_of j own_names)
        then some (normalize_system_variable_value cfg (normalize_system_variable_name name) value)
        else compat_variable cfg flags v j)
unfolding set_variable compat_variable own_variable
set_variable-compat_variable cfg in_transaction name value v flags j h =
    let n = normalize_system_variable_name name in
    let x = normalize_system_variable_value cfg n value in
    rw h (
      rw (← own_variable-one_of flags v j)
        (by_own n x (own_variable flags v j) (lookup-insert n j x v.session_variables)))
  where
    by_own :
        (n x : Bytes) (own : Option Bytes)
        → lookup j (insert n x v.session_variables)
          ≡ (if beq n j then some x else lookup j v.session_variables)
        → choose own (lookup j (insert n x v.session_variables)) (lookup j cfg.variables) ≡ (
            if beq n j && not (is_some own)
            then some x
            else choose own (lookup j v.session_variables) (lookup j cfg.variables))
    by_own n x (some y) e = ground arith
    by_own n x none e = ground (arith, e)

-- What an item of the list gives to the variable `j`: the value of an assignment to it, by its name
-- without `@@`, `session.` or `global.` in small letters.
abbrev pub assigned : Settings → Bytes → Option (Bytes × Bytes) → Option Bytes
assigned cfg j none = none
assigned cfg j (some (name, value)) =
    let n = normalize_system_variable_name name in
    if not (beq n []) && beq n j then some (normalize_system_variable_value cfg n value) else none

-- What the last assignment to the variable in the list gives to it.
unfoldable pub last_assigned : Settings → Bytes → List Bytes → Option Bytes
last_assigned cfg j [] = none
last_assigned cfg j (item ∷ items) =
    let here = assigned cfg j (parse_set_variable_assignment item) in
    elim (last_assigned cfg j items) [ none ↦ here | some value ↦ some value ]

-- A value that was set, if there is one and the connection does not keep the variable itself.
abbrev pub set_or : Bytes → Option Bytes → Option Bytes → Option Bytes
set_or j none before = before
set_or j (some value) before = if one_of j own_names then before else some value

assign-compat_variable :
    (cfg : Settings) (in_transaction : Bool) (a : Option (Bytes × Bytes)) (v : SessionVariables)
    (flags : ℕ) (j : Bytes)
    → compat_variable cfg flags (assign cfg in_transaction a v).0 j
      ≡ set_or j (assigned cfg j a) (compat_variable cfg flags v j)
assign-compat_variable cfg in_transaction none v flags j = refl
assign-compat_variable cfg in_transaction (some (name, value)) v flags j =
    elim (Bool-cases (beq (normalize_system_variable_name name) [])) [
      | inl blank ↦ (unfold set_variable in rw blank refl)
      | inr named ↦
          set_variable-compat_variable cfg in_transaction name value v flags j named
          ∙ rw named (
              taken (beq (normalize_system_variable_name name) j)
                (normalize_system_variable_value cfg (normalize_system_variable_name name) value))
    ]
  where
    taken :
        (same : Bool) (x : Bytes)
        → (if same && not (one_of j own_names) then some x else compat_variable cfg flags v j)
          ≡ set_or j (if same then some x else none) (compat_variable cfg flags v j)
    taken true x = ground arith
    taken false x = refl

assign_all-compat_variable :
    (cfg : Settings) (in_transaction : Bool) (items : List Bytes) (v : SessionVariables) (flags : ℕ)
    (j : Bytes)
    → compat_variable cfg flags (assign_all cfg in_transaction items v).0 j
      ≡ set_or j (last_assigned cfg j items) (compat_variable cfg flags v j)
unfolding assign_all last_assigned
assign_all-compat_variable cfg in_transaction [] v flags j = refl
assign_all-compat_variable cfg in_transaction (item ∷ items) v flags j =
    let a = parse_set_variable_assignment item in
    assign_all-compat_variable cfg in_transaction items (assign cfg in_transaction a v).0 flags j
    ∙ (ap (set_or j (last_assigned cfg j items))
          (assign-compat_variable cfg in_transaction a v flags j)
        ∙ later (last_assigned cfg j items) (assigned cfg j a))
  where
    later :
        (l h : Option Bytes)
        → set_or j l (set_or j h (compat_variable cfg flags v j))
          ≡ set_or j (elim l [ none ↦ h | some value ↦ some value ]) (compat_variable cfg flags v j)
    later none h = refl
    later (some x) none = refl
    later (some x) (some y) = ground arith

-- About setVariables, which executeQuery calls for SET statements other than SET AUTOCOMMIT and SET
-- TRANSACTION (for SET NAMES behind setNames): afterwards compatVariable gives for a variable what the last assignment to it in the
-- statement's list gives, and for a variable with none what it gave before. The five variables that the connection
-- keeps itself, autocommit and the character sets, stay as they were even if they are assigned.
pub set_variables-compat_variable :
    (cfg : Settings) (in_transaction : Bool) (sql : Bytes) (v : SessionVariables) (flags : ℕ)
    (j : Bytes)
    → compat_variable cfg flags (set_variables cfg in_transaction sql v).0 j
      ≡ set_or j
          (last_assigned cfg j (split_sql_top_level_list (trim_space (drop 3 sql))))
          (compat_variable cfg flags v j)
unfolding set_variables
set_variables-compat_variable cfg in_transaction sql v flags j =
    assign_all-compat_variable cfg in_transaction
      (split_sql_top_level_list (trim_space (drop 3 sql))) v flags j
