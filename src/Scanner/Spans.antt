-- ===== src/Scanner/Spans.antt =====
-- About the positions that the scanning functions give.
use mysqlmock.Base.{
  ℕ, zero, suc, ◌+◌, ◌≤◌, ◌<◌, ◌≡◌, refl, Bool, not, Option, none, some, arith, ◌==◌, length, slice,
  Bytes,
}
use mysqlmock.Scanner.{
  keyword_end, line_end, block_comment_loop, quoted_loop, scan_loop, at, is_sql_identifier_part,
  is_sql_space, scan_while, skip_sql_spaces, quoted_sql_span, sql_comment_span, skipped_span,
  read_sql_identifier, consume_keyword,
}

scan_loop-le :
    (fuel : ℕ) (test : ℕ → Bool) (s : Bytes) (i : ℕ)
    → i ≤ length s
    → (i ≤ scan_loop fuel test s i) × (scan_loop fuel test s i ≤ length s)
unfolding scan_loop
scan_loop-le zero test s i h = (omega arith, omega arith)
scan_loop-le (suc fuel) test s i h = ground (arith, scan_loop-le fuel test s (i + 1))

pub scan_while-le :
    (test : ℕ → Bool) (s : Bytes) (i : ℕ)
    → i ≤ length s
    → (i ≤ scan_while test s i) × (scan_while test s i ≤ length s)
unfolding scan_while
scan_while-le test s i h = scan_loop-le (length s) test s i h

quoted_loop-le :
    (fuel : ℕ) (s : Bytes) (quote i : ℕ)
    → i ≤ length s
    → (i ≤ quoted_loop fuel s quote i) × (quoted_loop fuel s quote i ≤ length s)
unfolding quoted_loop
quoted_loop-le zero s quote i h = (h, omega arith)
quoted_loop-le (suc fuel) s quote i h =
    ground (arith, quoted_loop-le fuel s quote (i + 1), quoted_loop-le fuel s quote (i + 2))

block_comment_loop-le :
    (fuel : ℕ) (s : Bytes) (i : ℕ)
    → i ≤ length s
    → (i ≤ block_comment_loop fuel s i) × (block_comment_loop fuel s i ≤ length s)
unfolding block_comment_loop
block_comment_loop-le zero s i h = (omega arith, h)
block_comment_loop-le (suc fuel) s i h = ground (arith, block_comment_loop-le fuel s (i + 1))

line_end-le : (s : Bytes) (i : ℕ) → i ≤ length s → (i ≤ line_end s i) × (line_end s i ≤ length s)
unfolding line_end
line_end-le s i h = ground (arith, scan_while-le (λ c. not (c == 10)) s i)

-- A quoted text ends behind its beginning and within the text.
pub quoted_sql_span-le :
    (s : Bytes) (pos : ℕ) {end : ℕ}
    → quoted_sql_span s pos ≡ some end
    → (pos < end) × (end ≤ length s)
unfolding quoted_sql_span
quoted_sql_span-le s pos h = ground (arith, quoted_loop-le (length s) s (at s pos) (pos + 1))

-- A comment ends behind its beginning and within the text.
pub sql_comment_span-le :
    (s : Bytes) (pos : ℕ) {end : ℕ}
    → pos < length s
    → sql_comment_span s pos ≡ some end
    → (pos < end) × (end ≤ length s)
unfolding sql_comment_span
sql_comment_span-le s pos p h = ground (
  arith,
  line_end-le s (pos + 2),
  line_end-le s (pos + 1),
  block_comment_loop-le (length s) s (pos + 2),
)

-- What a scanning loop skips moves it forward, and keeps it within the text.
pub skipped_span-le :
    (s : Bytes) (pos : ℕ) {end : ℕ}
    → pos < length s
    → skipped_span s pos ≡ some end
    → (pos < end) × (end ≤ length s)
unfolding skipped_span
skipped_span-le s pos {end} p h =
    ground (arith, quoted_sql_span-le s pos {end = end}, sql_comment_span-le s pos {end = end})

-- An identifier is a slice of the text that is not empty.
pub read_sql_identifier-le :
    (s : Bytes) (pos : ℕ) {word : Bytes} {end : ℕ}
    → read_sql_identifier s pos ≡ some (word, end)
    → (pos < end) × (end ≤ length s) × (word ≡ slice s pos end)
unfolding read_sql_identifier
read_sql_identifier-le s pos h = ground (arith, scan_while-le is_sql_identifier_part s (pos + 1))

pub skip_sql_spaces-le :
    (s : Bytes) (pos : ℕ)
    → pos ≤ length s
    → (pos ≤ skip_sql_spaces s pos) × (skip_sql_spaces s pos ≤ length s)
unfolding skip_sql_spaces
skip_sql_spaces-le s pos h = scan_while-le is_sql_space s pos h

-- A keyword that is consumed moves the position forward, and keeps it within the text.
pub consume_keyword-le :
    (s : Bytes) (pos : ℕ) (keyword : Bytes) {end : ℕ}
    → pos ≤ length s
    → consume_keyword s pos keyword ≡ some end
    → (pos < end) × (end ≤ length s)
unfolding consume_keyword
consume_keyword-le s pos keyword p h = from (read_sql_identifier s (skip_sql_spaces s pos)) refl h
  where
    from :
        (r : Option (Bytes × ℕ)) {end : ℕ}
        → read_sql_identifier s (skip_sql_spaces s pos) ≡ r
        → keyword_end keyword r ≡ some end
        → (pos < end) × (end ≤ length s)
    from none e k = cc
    from (some (word, stop)) e k =
        ground
          (arith, skip_sql_spaces-le s pos p, read_sql_identifier-le s (skip_sql_spaces s pos) e)
