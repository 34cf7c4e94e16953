-- ===== src/Scanner.antt =====
-- The token scanner over SQL text (pkg/mysqlmock/sqlscanner.go). Positions are numbers; a pair of
-- a position and a flag is an `Option`. Each loop takes as fuel the length of the text: every
-- round moves the position forward, and the loop ends at the end of the text (Scanner/Fuel).
pub mod Spans
pub mod TopLevel
pub mod Split
pub mod Runs
pub mod Fuel
use mysqlmock.Base.{
  ℕ, zero, suc, ◌+◌, ◌-◌, ◌*◌, ◌/◌, ◌%◌, ◌^◌, ◌≤◌, ◌<◌, ◌≡◌, refl, sym, ap, ◌∙◌, ◌≢◌, ◌↔◌, ◌⊎◌, inl,
  inr, Bool, true, false, not, ◌&&◌, ◌||◌, Option, none, some, List, [], ◌∷◌, ◌++◌, map, append-nil,
  append_assoc, arith, ltb, leb, ◌==◌, if◌then◌else◌, ltb→lt, ltb→ge, lt→ltb, ge→ltb, leb→le,
  le→leb, ==_iff, ==_refl, tests, Bool-cases, Option-cases, length, get_elem?, get_or, set, take,
  drop, replicate, slice, length-append, length-take, length-drop, length-replicate, length-set,
  take-length_append, drop-length_append, take-append-drop, take_all, drop_all, drop-drop, Bytes,
  codes, beq, beq_iff, beq_refl, lower_byte, upper_byte, to_lower, to_upper, equal_fold, has_prefix,
  trim_prefix, has_suffix, trim_suffix, contains, is_space, trim_space, fields, join, index_byte,
}

-- The byte at a position; the callers stay within the text.
abbrev pub at : Bytes → ℕ → ℕ
at s i = get_or s i 0

abbrev pub within : Bytes → ℕ → Bool
within s i = ltb i (length s)

unfoldable pub is_sql_identifier_start : ℕ → Bool
is_sql_identifier_start c =
    (c == b'_') || ((leb b'A' c && leb c b'Z') || (leb b'a' c && leb c b'z'))

unfoldable pub is_sql_identifier_part : ℕ → Bool
unfolding is_sql_identifier_start
is_sql_identifier_part c = is_sql_identifier_start c || ((leb b'0' c && leb c b'9') || (c == b'$'))

unfoldable pub is_sql_space : ℕ → Bool
is_sql_space c = (c == b' ') || ((c == 9) || ((c == 10) || ((c == 13) || (c == 12))))

-- `for i < len(sqlText) && test(sqlText[i]) { i++ }`
scan_loop : ℕ → (ℕ → Bool) → Bytes → ℕ → ℕ
scan_loop zero test s i = i
scan_loop (suc fuel) test s i =
    let later = scan_loop fuel test s (i + 1) in if within s i && test (at s i) then later else i

unfoldable pub scan_while : (ℕ → Bool) → Bytes → ℕ → ℕ
unfolding scan_loop
scan_while test s i = scan_loop (length s) test s i

unfoldable pub skip_sql_spaces : Bytes → ℕ → ℕ
unfolding scan_while is_sql_space
skip_sql_spaces s pos = scan_while is_sql_space s pos

quoted_loop : ℕ → Bytes → ℕ → ℕ → ℕ
quoted_loop zero s quote i = length s
quoted_loop (suc fuel) s quote i =
    let by_one = quoted_loop fuel s quote (i + 1) in
    let by_two = quoted_loop fuel s quote (i + 2) in
    if not (within s i)
    then length s
    else if (at s i == b'\\') && (not (quote == b'`') && within s (i + 1))
    then by_two
    else if at s i == quote
    then (if not (quote == b'`') && (within s (i + 1) && (at s (i + 1) == quote))
        then by_two
        else i + 1)
    else by_one

-- The end of the quoted text that begins at `pos`. A text with no closing quote runs to the end.
unfoldable pub quoted_sql_span : Bytes → ℕ → Option ℕ
unfolding quoted_loop
quoted_sql_span s pos =
    if not (within s pos)
    then none
    else if (at s pos == b'\'') || ((at s pos == b'"') || (at s pos == b'`'))
    then some (quoted_loop (length s) s (at s pos) (pos + 1))
    else none

block_comment_loop : ℕ → Bytes → ℕ → ℕ
block_comment_loop zero s i = i
block_comment_loop (suc fuel) s i =
    let later = block_comment_loop fuel s (i + 1) in
    if within s (i + 1) && not ((at s i == b'*') && (at s (i + 1) == b'/')) then later else i

-- The end of a comment that runs to the end of its line, the newline included.
line_end : Bytes → ℕ → ℕ
unfolding scan_while
line_end s i =
    let stop = scan_while (λ c. not (c == 10)) s i in if within s stop then stop + 1 else stop

unfoldable pub sql_comment_span : Bytes → ℕ → Option ℕ
unfolding line_end block_comment_loop
sql_comment_span s pos =
    if within s (pos + 1) && ((at s pos == b'-') && (at s (pos + 1) == b'-'))
    then some (line_end s (pos + 2))
    else if at s pos == b'#'
    then some (line_end s (pos + 1))
    else if within s (pos + 1) && ((at s pos == b'/') && (at s (pos + 1) == b'*'))
    then (let stop = block_comment_loop (length s) s (pos + 2) in
        some (if within s (stop + 1) then stop + 2 else length s))
    else none

-- A quoted text or a comment: what every scanning loop skips whole.
unfoldable pub skipped_span : Bytes → ℕ → Option ℕ
skipped_span s i = elim (quoted_sql_span s i) [ some end ↦ some end | none ↦ sql_comment_span s i ]

-- The identifier at `pos` and its end.
unfoldable pub read_sql_identifier : Bytes → ℕ → Option (Bytes × ℕ)
unfolding is_sql_identifier_start is_sql_identifier_part scan_while
read_sql_identifier s pos =
    if within s pos && is_sql_identifier_start (at s pos)
    then (let end = scan_while is_sql_identifier_part s (pos + 1) in some (slice s pos end, end))
    else none

keyword_end : Bytes → Option (Bytes × ℕ) → Option ℕ
unfolding equal_fold
keyword_end keyword none = none
keyword_end keyword (some (word, end)) = if equal_fold word keyword then some end else none

-- The position behind the keyword, if it comes next.
unfoldable pub consume_keyword : Bytes → ℕ → Bytes → Option ℕ
unfolding keyword_end read_sql_identifier skip_sql_spaces
consume_keyword s pos keyword = keyword_end keyword (read_sql_identifier s (skip_sql_spaces s pos))

-- A quoted or bare name, as it is written, and its end.
unfoldable pub read_sql_name_token : Bytes → ℕ → Option (Bytes × ℕ)
unfolding skip_sql_spaces quoted_sql_span read_sql_identifier
read_sql_name_token s pos =
    let start = skip_sql_spaces s pos in
    if not (within s start)
    then none
    else if (at s start == b'`') || (at s start == b'"')
    then (elim (quoted_sql_span s start) [ none ↦ none | some end ↦ some (slice s start end, end) ])
    else elim (read_sql_identifier s start) [
      | none ↦ none
      | some (word, end) ↦ some (slice s start end, end)
    ]

-- `()` with blanks, and the position behind it.
unfoldable pub consume_empty_call : Bytes → ℕ → Option ℕ
unfolding skip_sql_spaces
consume_empty_call s pos =
    let open_at = skip_sql_spaces s pos in
    let close_at = skip_sql_spaces s (open_at + 1) in
    if not (within s open_at) || not (at s open_at == b'(')
    then none
    else if not (within s close_at) || not (at s close_at == b')')
    then none
    else some (close_at + 1)

unfoldable pub normalize_sql : Bytes → Bytes
unfolding trim_space trim_suffix fields join
normalize_sql s = join (fields (trim_suffix (trim_space s) (codes ";"))) (codes " ")

unfoldable pub unquote_sql_word : Bytes → Bytes
unfolding trim_space trim_suffix
unquote_sql_word value =
    let v = trim_suffix (trim_space value) (codes ";") in
    let quote = at v 0 in
    if leb 2 (length v)
      && (((quote == b'\'') || ((quote == b'"') || (quote == b'`')))
          && (at v (length v - 1) == quote))
    then slice v 1 (length v - 1)
    else v
