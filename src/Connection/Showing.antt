-- ===== src/Connection/Showing.antt =====
-- SHOW VARIABLES beside SELECT @@name (`showVariables`, `compatVariables`, `compatVariable`).
use mysqlmock.Rows.{ResultSet}
use mysqlmock.Base.{
  subst, ℕ, ◌≡◌, refl, sym, ap, ◌∙◌, Bool, true, false, ◌||◌, Option, none, some, List, [], ◌∷◌,
  map, arith, if◌then◌else◌, Bytes, beq, beq_iff,
}
use mysqlmock.Map.{bytes_eq, Assoc, lookup, insert, keys, is_some}
use mysqlmock.Map.Laws.{lookup-insert}
use mysqlmock.Map.Distinct.{insert-OneEach, OneEach}
use mysqlmock.Value.{Value, text}
use mysqlmock.Connection.{SessionVariables, Settings}
use mysqlmock.Connection.Variables.{
  select_name, select_expression, one_row, select_variable, own_variable, choose, copy_own, text_at,
  compat_variable, copy_into, own_names, compat_variables, sort_strings, show_variables,
}
use mysqlmock.Connection.Assigning.{own_variable-one_of}
use mysqlmock.Connection.Sorting.{
  sort_strings-Ascending, Ascending, Different, one_of, one_of-sort_strings,
}

-- What a client reads of the answer: the value in the first row with a name.
unfoldable pub row_value : Bytes → List (List Value) → Option Bytes
row_value name [] = none
row_value name ((text k ∷ (text v ∷ [])) ∷ rows) =
    let later = row_value name rows in if beq k name then some v else later
row_value name (row ∷ rows) = row_value name rows

beq_flip : (a b : Bytes) → beq a b ≡ beq b a
beq_flip a b = ground (arith, beq_iff a b, beq_iff b a)

lookup-copy_into :
    (j : Bytes) (m to : Assoc Bytes Bytes)
    → OneEach m
    → lookup j (copy_into m to) ≡ (elim (lookup j m) [ none ↦ lookup j to | some v ↦ some v ])
unfolding OneEach copy_into lookup
lookup-copy_into j [] to d = refl
lookup-copy_into j ((k, v) ∷ m) to d =
    ground (arith, lookup-copy_into j m (insert k v to), lookup-insert k j v to, beq_iff k j)

abbrev text_or_empty : Option Bytes → Bytes
text_or_empty none = []
text_or_empty (some x) = x

abbrev own_value : Settings → ℕ → SessionVariables → Bytes → Bytes
own_value cfg flags v name = text_or_empty (compat_variable cfg flags v name)

-- Whether a name is written now or later makes no difference.
pick_first :
    (now later : Bool) (own x : Bytes) (old : Option Bytes)
    → (now ≡ true → own ≡ x)
    → {A : Option Bytes} → A ≡ (if later then some own else (if now then some x else old))
    → A ≡ (if now || later then some own else old)
pick_first true true own x old same h = h
pick_first true false own x old same h = h ∙ ap some (sym (same refl))
pick_first false later own x old same h = h

lookup-copy_own :
    (cfg : Settings) (flags : ℕ) (v : SessionVariables) (names : List Bytes)
    (to : Assoc Bytes Bytes) (j : Bytes)
    → lookup j (copy_own cfg flags v names to)
      ≡ (if one_of j names then some (own_value cfg flags v j) else lookup j to)
unfolding copy_own one_of
lookup-copy_own cfg flags v [] to j = refl
lookup-copy_own cfg flags v (n ∷ ns) to j =
    let x = own_value cfg flags v n in
    let same_value : beq j n ≡ true → own_value cfg flags v j ≡ x =
      (λ e. ap (own_value cfg flags v) ((beq_iff j n).0 e)) in
    pick_first (beq j n) (one_of j ns) (own_value cfg flags v j) x (lookup j to) same_value (
      lookup-copy_own cfg flags v ns (insert n x to) j
      ∙ ap (λ o. if one_of j ns then some (own_value cfg flags v j) else o)
          (lookup-insert n j x to ∙ ap (λ b. if b then some x else lookup j to) (beq_flip n j)))

lookup-compat_variables :
    (cfg : Settings) (flags : ℕ) (v : SessionVariables) (j : Bytes)
    → OneEach cfg.variables
    → OneEach v.session_variables
    → lookup j (compat_variables cfg flags v) ≡ compat_variable cfg flags v j
unfolding compat_variables compat_variable lookup
lookup-compat_variables cfg flags v j dc ds =
    let stored = copy_into v.session_variables (copy_into cfg.variables []) in
    lookup-copy_own cfg flags v own_names stored j
    ∙ (ap (λ b. if b then some (own_value cfg flags v j) else lookup j stored)
          (sym (own_variable-one_of flags v j))
        ∙ by_own (own_variable flags v j) (lookup j stored)
            (lookup-copy_into j v.session_variables (copy_into cfg.variables []) ds)
            (lookup-copy_into j cfg.variables [] dc))
  where
    by_own :
        (own found : Option Bytes)
        → found ≡ (elim (lookup j v.session_variables) [
          | none ↦ lookup j (copy_into cfg.variables [])
          | some x ↦ some x
        ])
        → lookup j (copy_into cfg.variables [])
          ≡ (elim (lookup j cfg.variables) [ none ↦ lookup j [] | some x ↦ some x ])
        → (if is_some own
            then some
                (text_or_empty (choose own (lookup j v.session_variables) (lookup j cfg.variables)))
            else found)
          ≡ choose own (lookup j v.session_variables) (lookup j cfg.variables)
    by_own (some x) found h k = refl
    by_own none found h k = ground (arith, h, k)

one_of-keys : (j : Bytes) (m : Assoc Bytes Bytes) → one_of j (keys m) ≡ is_some (lookup j m)
unfolding one_of lookup
one_of-keys j [] = refl
one_of-keys j ((k, v) ∷ m) = ground (arith, one_of-keys j m, beq_flip j k)

rows_value :
    (j : Bytes) (m : Assoc Bytes Bytes) (ks : List Bytes)
    → row_value j (map (λ k. text k ∷ (text (text_at k m) ∷ [])) ks)
      ≡ (if one_of j ks then some (text_at j m) else none)
unfolding row_value one_of
rows_value j m [] = refl
rows_value j m (k ∷ ks) = ground (arith, rows_value j m ks, beq_flip j k, beq_iff j k)

-- The rows of SHOW VARIABLES, name by name.
show_variables-compat_variable :
    (cfg : Settings) (flags : ℕ) (v : SessionVariables) (j : Bytes)
    → OneEach cfg.variables
    → OneEach v.session_variables
    → row_value j (show_variables cfg flags v).rows ≡ compat_variable cfg flags v j
unfolding show_variables
show_variables-compat_variable cfg flags v j dc ds =
    let m = compat_variables cfg flags v in
    rows_value j m (sort_strings (keys m))
    ∙ (ap (λ b. if b then some (text_at j m) else none)
          (one_of-sort_strings j (keys m) ∙ one_of-keys j m)
        ∙ (there (lookup j m) ∙ lookup-compat_variables cfg flags v j dc ds))
  where
    there :
        (o : Option Bytes)
        → (if is_some o then some (elim o [ none ↦ [] | some x ↦ x ]) else none) ≡ o
    there none = refl
    there (some x) = refl

unfoldable pub row_names : List (List Value) → List Bytes
row_names [] = []
row_names ((text k ∷ row) ∷ rows) = k ∷ row_names rows
row_names (row ∷ rows) = row_names rows

row_names-map :
    (m : Assoc Bytes Bytes) (ks : List Bytes)
    → row_names (map (λ k. text k ∷ (text (text_at k m) ∷ [])) ks) ≡ ks
unfolding row_names
row_names-map m [] = refl
row_names-map m (k ∷ ks) = ap (◌∷◌ k) (row_names-map m ks)

keys-Different : (m : Assoc Bytes Bytes) → OneEach m → Different (keys m)
unfolding OneEach Different
keys-Different [] d = tt
keys-Different ((k, v) ∷ m) d = (one_of-keys k m ∙ ap is_some d.0, keys-Different m d.1)

copy_into-OneEach : (m to : Assoc Bytes Bytes) → OneEach to → OneEach (copy_into m to)
unfolding copy_into
copy_into-OneEach [] to d = d
copy_into-OneEach ((k, v) ∷ m) to d = copy_into-OneEach m (insert k v to) (insert-OneEach k v to d)

copy_own-OneEach :
    (cfg : Settings) (flags : ℕ) (v : SessionVariables) (names : List Bytes)
    (to : Assoc Bytes Bytes)
    → OneEach to
    → OneEach (copy_own cfg flags v names to)
unfolding copy_own
copy_own-OneEach cfg flags v [] to d = d
copy_own-OneEach cfg flags v (n ∷ ns) to d =
    let x = own_value cfg flags v n in
    copy_own-OneEach cfg flags v ns (insert n x to) (insert-OneEach n x to d)

-- SHOW VARIABLES gives every name once, in ascending order.
pub show_variables-Ascending :
    (cfg : Settings) (flags : ℕ) (v : SessionVariables)
    → Ascending (row_names (show_variables cfg flags v).rows)
unfolding show_variables compat_variables OneEach
show_variables-Ascending cfg flags v =
    let m = compat_variables cfg flags v in
    let own : OneEach m =
      copy_own-OneEach cfg flags v own_names _
        (copy_into-OneEach v.session_variables _ (copy_into-OneEach cfg.variables [] tt)) in
    subst Ascending (sym (row_names-map m (sort_strings (keys m))))
      (sort_strings-Ascending (keys m) (keys-Different m own))

-- The answer to a SELECT with one value, or none.
abbrev pub answer_of : Bytes → Option Bytes → Option ResultSet
answer_of column none = none
answer_of column (some value) = some (one_row column (text value))

-- selectVariable, which answers `SELECT @@...` (all but @@version alone, which executeQuery answers
-- before), gives for the name that it reads from the text, in small letters and without `session.` or
-- `global.`, one row with the value that SHOW VARIABLES gives for that name, and nothing if SHOW
-- VARIABLES does not give the name, where the maps of variables have one entry for each name.
pub select_variable-show_variables :
    (cfg : Settings) (flags : ℕ) (v : SessionVariables) (normalized : Bytes)
    → OneEach cfg.variables
    → OneEach v.session_variables
    → select_variable cfg flags v normalized
      ≡ answer_of
          (select_expression normalized)
          (row_value (select_name normalized) (show_variables cfg flags v).rows)
unfolding select_variable
select_variable-show_variables cfg flags v normalized dc ds =
    answered (compat_variable cfg flags v (select_name normalized))
    ∙ ap (answer_of (select_expression normalized))
        (sym (show_variables-compat_variable cfg flags v (select_name normalized) dc ds))
  where
    answered :
        (o : Option Bytes)
        → elim o [
          | none ↦ none
          | some value ↦ some (one_row (select_expression normalized) (text value))
        ]
          ≡ answer_of (select_expression normalized) o
    answered none = refl
    answered (some value) = refl
