-- ===== src/Scanner/TopLevel.antt =====
-- The loops over a text that look only outside quotes, comments and parentheses
-- (pkg/mysqlmock/sqlscanner.go, and topLevelEqualIndex of pkg/mysqlmock/protocol.go).
use mysqlmock.Base.{
  ℕ, zero, suc, ◌+◌, ◌-◌, Bool, not, ◌&&◌, ◌||◌, Option, none, some, List, [], ◌∷◌, ◌==◌,
  if◌then◌else◌, length, drop, slice, Bytes, equal_fold,
}
use mysqlmock.Scanner.{at, within, skipped_span, read_sql_identifier}

-- `depth++` at '(', and `depth--` at ')' above zero.
abbrev pub depth_after : ℕ → ℕ → ℕ
depth_after c depth = if c == b'(' then depth + 1 else if c == b')' then depth - 1 else depth

-- The item before a comma that cuts, in front of the later items.
abbrev pub cut_item : Bool → Bytes → List Bytes → List Bytes
cut_item cut item later = if cut then item ∷ later else later

unfoldable pub split_loop : ℕ → Bytes → ℕ → ℕ → ℕ → List Bytes
split_loop zero s i start depth = drop start s ∷ []
split_loop (suc fuel) s i start depth =
    let skip_to = λ (end : ℕ). split_loop fuel s end start depth in
    let cut = (at s i == b',') && (depth == 0) in
    let later =
      split_loop fuel s (i + 1) (if cut then i + 1 else start) (depth_after (at s i) depth) in
    if not (within s i) then drop start s ∷ [] else elim (skipped_span s i) [
      | some end ↦ skip_to end
      | none ↦ cut_item cut (slice s start i) later
    ]

unfoldable pub split_sql_top_level_list : Bytes → List Bytes
unfolding split_loop
split_sql_top_level_list s = split_loop (length s) s 0 0 0

unfoldable pub find_keyword_loop : ℕ → Bytes → Bytes → ℕ → ℕ → Option ℕ
find_keyword_loop zero s keyword i depth = none
find_keyword_loop (suc fuel) s keyword i depth =
    let go = λ (j d : ℕ). find_keyword_loop fuel s keyword j d in
    if not (within s i) then none else elim (skipped_span s i) [
      | some end ↦ go end depth
      | none ↦
          if (at s i == b'(') || (at s i == b')')
          then go (i + 1) (depth_after (at s i) depth)
          else elim (read_sql_identifier s i) [
            | none ↦ go (i + 1) depth
            | some (word, end) ↦
                if (depth == 0) && equal_fold word keyword then some i else go end depth
          ]
    ]

-- Where the keyword first stands outside all parentheses, from `pos` on.
unfoldable pub find_top_level_sql_keyword : Bytes → ℕ → Bytes → Option ℕ
unfolding find_keyword_loop
find_top_level_sql_keyword s pos keyword = find_keyword_loop (length s) s keyword pos 0

unfoldable pub paren_loop : ℕ → Bytes → ℕ → ℕ → Option ℕ
paren_loop zero s i depth = none
paren_loop (suc fuel) s i depth =
    let go = λ (j d : ℕ). paren_loop fuel s j d in
    if not (within s i) then none else elim (skipped_span s i) [
      | some end ↦ go end depth
      | none ↦
          if at s i == b'('
          then go (i + 1) (depth + 1)
          else if at s i == b')'
          then (if depth - 1 == 0 then some (i + 1) else go (i + 1) (depth - 1))
          else go (i + 1) depth
    ]

-- The end of the parenthesised text that begins at `pos`.
unfoldable pub parenthesized_sql_span : Bytes → ℕ → Option ℕ
unfolding paren_loop
parenthesized_sql_span s pos =
    if not (within s pos) || not (at s pos == b'(') then none else paren_loop (length s) s pos 0

unfoldable pub equal_index_loop : ℕ → Bytes → ℕ → ℕ → Option ℕ
equal_index_loop zero s i depth = none
equal_index_loop (suc fuel) s i depth =
    let go = λ (j d : ℕ). equal_index_loop fuel s j d in
    if not (within s i) then none else elim (skipped_span s i) [
      | some end ↦ go end depth
      | none ↦
          if (at s i == b'=') && (depth == 0)
          then some i
          else go (i + 1) (depth_after (at s i) depth)
    ]

-- Where the first `=` stands outside all parentheses.
unfoldable pub top_level_equal_index : Bytes → Option ℕ
unfolding equal_index_loop
top_level_equal_index s = equal_index_loop (length s) s 0 0
