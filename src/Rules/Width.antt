-- ===== src/Rules/Width.antt =====
-- About `buildRuleResultSet` and the functions for its rows.
use mysqlmock.Base.{
  subst, ℕ, suc, ◌+◌, ◌≡◌, refl, sym, ap, inl, inr, not, Option, none, some, List, [], ◌∷◌, ◌==◌,
  if◌then◌else◌, ==_iff, Bool-cases, length, Bytes, codes, beq,
}
use mysqlmock.Rules.{
  RuleColumn, Row, array, object, scalar, RuleResponse, RuleError, unsupported_column_type, at_row,
  row_count_mismatch, unsupported_row, missing_column, is_word,
}
use mysqlmock.Value.{Value}
use mysqlmock.Rules.Results.{
  rule_column_field_type, rule_object_row_lookup, rule_object_row_values, rule_row_values,
  rule_columns, rule_rows_from, build_rule_result_set,
}
use mysqlmock.Rows.{ResultColumn, ResultSet}
use mysqlmock.Errors.{Result, ok, err, ◌>>=◌}

-- Every row has so many values.
abbrev pub AllWide : ℕ → List (List Value) → Type 0
AllWide n [] = Unit
AllWide n (row ∷ rows) = (length row ≡ n) × AllWide n rows

-- What a result holds, if it is no error.
abbrev pub Yields : {A : Type 0} → (A → Type 0) → Result RuleError A → Type 0
Yields P (ok a) = P a
Yields P (err e) = Unit

Yields-bind :
    {A B : Type 0} (P : A → Type 0) (Q : B → Type 0) (m : Result RuleError A)
    (f : A → Result RuleError B)
    → Yields P m
    → ((a : A) → P a → Yields Q (f a))
    → Yields Q (m >>= f)
Yields-bind P Q (ok a) f p q = q a p
Yields-bind P Q (err e) f p q = tt

rule_object_row_values-length :
    (columns : List RuleColumn) (row : Row)
    → Yields (λ values. length values ≡ length columns) (rule_object_row_values columns row)
unfolding rule_object_row_values
rule_object_row_values-length [] row = refl
rule_object_row_values-length (col ∷ columns) row =
    by_option (rule_object_row_lookup row col.name) (rule_object_row_values columns row)
      (rule_object_row_values-length columns row)
  where
    by_option :
        (o : Option Value) (later : Result RuleError (List Value))
        → Yields (λ values. length values ≡ length columns) later
        → Yields
            (λ values. length values ≡ suc (length columns))
            (elim o [
              | none ↦ err (missing_column col.name)
              | some v ↦ later >>= λ values. ok (v ∷ values)
            ])
    by_option none later h = tt
    by_option (some v) later h =
        Yields-bind (λ values. length values ≡ length columns)
          (λ values. length values ≡ suc (length columns)) later (λ values. ok (v ∷ values)) h
          (λ values k. ap suc k)

rule_row_values-length :
    (row_format : Bytes) (columns : List RuleColumn) (row : Row)
    → Yields (λ values. length values ≡ length columns) (rule_row_values row_format columns row)
unfolding rule_row_values
rule_row_values-length row_format columns row =
    elim (Bool-cases (is_word row_format ([] ∷ codes "array" ∷ codes "object" ∷ []))) [
      | inr p ↦ rw p tt
      | inl p ↦ rw p (elim (Bool-cases (beq row_format (codes "object"))) [
        | inl q ↦ rw q (rule_object_row_values-length columns row)
        | inr q ↦ rw q (by_row row)
      ])
    ]
  where
    by_row :
        (r : Row)
        → Yields
            (λ values. length values ≡ length columns)
            (elim r [
              | array values ↦
                  if not (length values == length columns)
                  then err row_count_mismatch
                  else ok values
              | object m ↦ rule_object_row_values columns (object m)
              | scalar v ↦ if length columns == 1 then ok (v ∷ []) else err unsupported_row
            ])
    by_row (array values) = elim (Bool-cases (length values == length columns)) [
      | inl p ↦ rw p ((==_iff (length values) (length columns)).0 p)
      | inr p ↦ rw p tt
    ]
    by_row (object m) = rule_object_row_values-length columns (object m)
    by_row (scalar v) = elim (Bool-cases (length columns == 1)) [
      | inl p ↦ rw p (sym ((==_iff (length columns) 1).0 p))
      | inr p ↦ rw p tt
    ]

rule_rows_from-AllWide :
    (row_format : Bytes) (columns : List RuleColumn) (i : ℕ) (rows : List Row)
    → Yields
        (λ rs. AllWide (length columns) rs × (length rs ≡ length rows))
        (rule_rows_from row_format columns i rows)
unfolding rule_rows_from
rule_rows_from-AllWide row_format columns i [] = (tt, refl)
rule_rows_from-AllWide row_format columns i (row ∷ rows) =
    by_values (rule_row_values row_format columns row)
      (rule_row_values-length row_format columns row)
      (rule_rows_from row_format columns (i + 1) rows)
      (rule_rows_from-AllWide row_format columns (i + 1) rows)
  where
    by_values :
        (v : Result RuleError (List Value))
        → Yields (λ values. length values ≡ length columns) v
        → (later : Result RuleError (List (List Value)))
        → Yields (λ rs. AllWide (length columns) rs × (length rs ≡ length rows)) later
        → Yields
            (λ rs. AllWide (length columns) rs × (length rs ≡ suc (length rows)))
            (elim v [ err e ↦ err (at_row i e) | ok values ↦ later >>= λ rs. ok (values ∷ rs) ])
    by_values (err e) h later k = tt
    by_values (ok values) h later k =
        Yields-bind (λ rs. AllWide (length columns) rs × (length rs ≡ length rows))
          (λ rs. AllWide (length columns) rs × (length rs ≡ suc (length rows))) later
          (λ rs. ok (values ∷ rs)) k (λ rs w. ((h, w.0), ap suc w.1))

rule_columns-length :
    (columns : List RuleColumn) → Yields (λ cs. length cs ≡ length columns) (rule_columns columns)
unfolding rule_columns
rule_columns-length [] = refl
rule_columns-length (col ∷ columns) =
    by_option (rule_column_field_type col.type_name) (rule_columns columns)
      (rule_columns-length columns)
  where
    by_option :
        (o : Option ℕ) (later : Result RuleError (List ResultColumn))
        → Yields (λ cs. length cs ≡ length columns) later
        → Yields
            (λ cs. length cs ≡ suc (length columns))
            (elim o [
              | none ↦ err (unsupported_column_type col.type_name)
              | some t ↦ later >>= λ cs.
                  ok (record { name = col.name; field_type = t; zero_fill_width = 0 } ∷ cs)
            ])
    by_option none later h = tt
    by_option (some t) later h =
        Yields-bind (λ cs. length cs ≡ length columns) (λ cs. length cs ≡ suc (length columns))
          later (λ cs. ok (record { name = col.name; field_type = t; zero_fill_width = 0 } ∷ cs)) h
          (λ cs k. ap suc k)

-- A result set of this many columns and rows, every row as wide as the columns.
abbrev pub Rectangular : RuleResponse → ResultSet → Type 0
Rectangular resp rs =
    (length rs.columns ≡ length resp.columns)
    × AllWide (length rs.columns) rs.rows
    × (length rs.rows ≡ length resp.rows)

pub build-Yields : (resp : RuleResponse) → Yields (Rectangular resp) (build_rule_result_set resp)
unfolding build_rule_result_set
build-Yields resp =
    Yields-bind (λ cs. length cs ≡ length resp.columns) (Rectangular resp)
      (rule_columns resp.columns) _ (rule_columns-length resp.columns)
      (λ cs h.
        Yields-bind (λ rs. AllWide (length resp.columns) rs × (length rs ≡ length resp.rows))
          (Rectangular resp) (rule_rows_from resp.row_format resp.columns 0 resp.rows) _
          (rule_rows_from-AllWide resp.row_format resp.columns 0 resp.rows)
          (λ rs w. (h, subst (λ n. AllWide n rs) (sym h) w.0, w.1)))
