-- ===== src/Scanner/Runs.antt =====
-- The loops over a text as the source has them, with no fuel: runs of finitely many rounds, each by
-- the branch that it takes (`splitSQLTopLevelList`, `findTopLevelSQLKeyword`,
-- `parenthesizedSQLSpan` of pkg/mysqlmock/sqlscanner.go, `topLevelEqualIndex` of protocol.go).
use mysqlmock.Scanner.TopLevel.{depth_after}
use mysqlmock.Base.{
  ℕ, ◌+◌, ◌-◌, ◌≡◌, ◌≢◌, true, false, ◌&&◌, ◌||◌, Option, none, some, List, [], ◌∷◌, ◌==◌, drop,
  slice, Bytes, equal_fold,
}
use mysqlmock.Scanner.{at, within, skipped_span, read_sql_identifier}

-- From position `i`, with the item begun at `start`, the loop gives these items.
pub data SplitRun (s : Bytes) : ℕ → ℕ → ℕ → List Bytes → Type 0 where
  split_end :
      {i start depth : ℕ} → within s i ≡ false → SplitRun s i start depth (drop start s ∷ [])
  split_skip :
      {i start depth end : ℕ} {items : List Bytes}
      → within s i ≡ true
      → skipped_span s i ≡ some end
      → SplitRun s end start depth items
      → SplitRun s i start depth items
  split_cut :
      {i start depth : ℕ} {items : List Bytes}
      → within s i ≡ true
      → skipped_span s i ≡ none
      → (at s i == b',') && (depth == 0) ≡ true
      → SplitRun s (i + 1) (i + 1) depth items
      → SplitRun s i start depth (slice s start i ∷ items)
  split_pass :
      {i start depth : ℕ} {items : List Bytes}
      → within s i ≡ true
      → skipped_span s i ≡ none
      → (at s i == b',') && (depth == 0) ≡ false
      → SplitRun s (i + 1) start (depth_after (at s i) depth) items
      → SplitRun s i start depth items

-- The search for a keyword.
pub data KeywordRun (s keyword : Bytes) : ℕ → ℕ → Option ℕ → Type 0 where
  keyword_end : {i depth : ℕ} → within s i ≡ false → KeywordRun s keyword i depth none
  keyword_skip :
      {i depth end : ℕ} {found : Option ℕ}
      → within s i ≡ true
      → skipped_span s i ≡ some end
      → KeywordRun s keyword end depth found
      → KeywordRun s keyword i depth found
  keyword_paren :
      {i depth : ℕ} {found : Option ℕ}
      → within s i ≡ true
      → skipped_span s i ≡ none
      → (at s i == b'(') || (at s i == b')') ≡ true
      → KeywordRun s keyword (i + 1) (depth_after (at s i) depth) found
      → KeywordRun s keyword i depth found
  keyword_pass :
      {i depth : ℕ} {found : Option ℕ}
      → within s i ≡ true
      → skipped_span s i ≡ none
      → (at s i == b'(') || (at s i == b')') ≡ false
      → read_sql_identifier s i ≡ none
      → KeywordRun s keyword (i + 1) depth found
      → KeywordRun s keyword i depth found
  keyword_found :
      {i depth end : ℕ} {word : Bytes}
      → within s i ≡ true
      → skipped_span s i ≡ none
      → (at s i == b'(') || (at s i == b')') ≡ false
      → read_sql_identifier s i ≡ some (word, end)
      → (depth == 0) && equal_fold word keyword ≡ true
      → KeywordRun s keyword i depth (some i)
  keyword_word :
      {i depth end : ℕ} {word : Bytes} {found : Option ℕ}
      → within s i ≡ true
      → skipped_span s i ≡ none
      → (at s i == b'(') || (at s i == b')') ≡ false
      → read_sql_identifier s i ≡ some (word, end)
      → (depth == 0) && equal_fold word keyword ≡ false
      → KeywordRun s keyword end depth found
      → KeywordRun s keyword i depth found

-- The search for the end of parentheses.
pub data ParenRun (s : Bytes) : ℕ → ℕ → Option ℕ → Type 0 where
  paren_end : {i depth : ℕ} → within s i ≡ false → ParenRun s i depth none
  paren_skip :
      {i depth end : ℕ} {found : Option ℕ}
      → within s i ≡ true
      → skipped_span s i ≡ some end
      → ParenRun s end depth found
      → ParenRun s i depth found
  paren_open :
      {i depth : ℕ} {found : Option ℕ}
      → within s i ≡ true
      → skipped_span s i ≡ none
      → at s i ≡ b'('
      → ParenRun s (i + 1) (depth + 1) found
      → ParenRun s i depth found
  paren_found :
      {i depth : ℕ}
      → within s i ≡ true
      → skipped_span s i ≡ none
      → at s i ≡ b')'
      → depth - 1 ≡ 0
      → ParenRun s i depth (some (i + 1))
  paren_close :
      {i depth : ℕ} {found : Option ℕ}
      → within s i ≡ true
      → skipped_span s i ≡ none
      → at s i ≡ b')'
      → depth - 1 ≢ 0
      → ParenRun s (i + 1) (depth - 1) found
      → ParenRun s i depth found
  paren_pass :
      {i depth : ℕ} {found : Option ℕ}
      → within s i ≡ true
      → skipped_span s i ≡ none
      → at s i ≢ b'('
      → at s i ≢ b')'
      → ParenRun s (i + 1) depth found
      → ParenRun s i depth found

-- The search for an equal sign.
pub data EqualRun (s : Bytes) : ℕ → ℕ → Option ℕ → Type 0 where
  equal_end : {i depth : ℕ} → within s i ≡ false → EqualRun s i depth none
  equal_skip :
      {i depth end : ℕ} {found : Option ℕ}
      → within s i ≡ true
      → skipped_span s i ≡ some end
      → EqualRun s end depth found
      → EqualRun s i depth found
  equal_found :
      {i depth : ℕ}
      → within s i ≡ true
      → skipped_span s i ≡ none
      → (at s i == b'=') && (depth == 0) ≡ true
      → EqualRun s i depth (some i)
  equal_pass :
      {i depth : ℕ} {found : Option ℕ}
      → within s i ≡ true
      → skipped_span s i ≡ none
      → (at s i == b'=') && (depth == 0) ≡ false
      → EqualRun s (i + 1) (depth_after (at s i) depth) found
      → EqualRun s i depth found
