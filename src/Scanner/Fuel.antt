-- ===== src/Scanner/Fuel.antt =====
-- About the fuel of the loops over a text.
use mysqlmock.Scanner.Spans.{read_sql_identifier-le, skipped_span-le}
use mysqlmock.Scanner.{read_sql_identifier, at, skipped_span, within}
use mysqlmock.Scanner.TopLevel.{
  depth_after, find_keyword_loop, equal_index_loop, paren_loop, split_loop,
}
use mysqlmock.Base.{
  ℕ, zero, suc, ◌+◌, ◌-◌, ◌≤◌, ◌≡◌, inl, inr, ◌&&◌, ◌||◌, arith, ◌==◌, ltb→lt, ge→ltb, ==_iff,
  Bool-cases, Option-cases, length, Bytes, equal_fold,
}
use mysqlmock.Scanner.Runs.{
  SplitRun, split_end, split_skip, split_cut, split_pass, KeywordRun, keyword_end, keyword_skip,
  keyword_paren, keyword_pass, keyword_found, keyword_word, ParenRun, paren_end, paren_skip,
  paren_open, paren_found, paren_close, paren_pass, EqualRun, equal_end, equal_skip, equal_found,
  equal_pass,
}

split_loop-SplitRun :
    (fuel : ℕ) (s : Bytes) (i start depth : ℕ)
    → length s ≤ i + fuel
    → SplitRun s i start depth (split_loop fuel s i start depth)
unfolding split_loop
split_loop-SplitRun zero s i start depth h = split_end (ge→ltb i (length s) (omega arith))
split_loop-SplitRun (suc fuel) s i start depth h = elim (Bool-cases (within s i)) [
  | inr out ↦ rw out (split_end out)
  | inl inside ↦ rw inside (elim (Option-cases (skipped_span s i)) [
    | inr (end, e) ↦
        let (p, q) = skipped_span-le s i (ltb→lt i (length s) inside) e in
        rw e (split_skip inside e (split_loop-SplitRun fuel s end start depth (omega arith)))
    | inl e ↦ rw e (elim (Bool-cases ((at s i == b',') && (depth == 0))) [
      | inl c ↦
          let same : depth_after (at s i) depth ≡ depth = ground arith in
          rw (c, same)
            (split_cut inside e c (split_loop-SplitRun fuel s (i + 1) (i + 1) depth (omega arith)))
      | inr c ↦ rw c (
          split_pass inside e c
            (split_loop-SplitRun fuel s (i + 1) start (depth_after (at s i) depth) (omega arith)))
    ])
  ])
]

paren_loop-ParenRun :
    (fuel : ℕ) (s : Bytes) (i depth : ℕ)
    → length s ≤ i + fuel
    → ParenRun s i depth (paren_loop fuel s i depth)
unfolding paren_loop
paren_loop-ParenRun zero s i depth h = paren_end (ge→ltb i (length s) (omega arith))
paren_loop-ParenRun (suc fuel) s i depth h = elim (Bool-cases (within s i)) [
  | inr out ↦ rw out (paren_end out)
  | inl inside ↦ rw inside (elim (Option-cases (skipped_span s i)) [
    | inr (end, e) ↦
        let (p, q) = skipped_span-le s i (ltb→lt i (length s) inside) e in
        rw e (paren_skip inside e (paren_loop-ParenRun fuel s end depth (omega arith)))
    | inl e ↦ rw e (elim (Bool-cases (at s i == b'(')) [
      | inl o ↦ rw o (
          paren_open inside e ((==_iff (at s i) b'(').0 o)
            (paren_loop-ParenRun fuel s (i + 1) (depth + 1) (omega arith)))
      | inr o ↦ rw o (elim (Bool-cases (at s i == b')')) [
        | inl c ↦ rw c (elim (Bool-cases (depth - 1 == 0)) [
          | inl z ↦
              rw z (paren_found inside e ((==_iff (at s i) b')').0 c) ((==_iff (depth - 1) 0).0 z))
          | inr z ↦ rw z (
              paren_close inside e ((==_iff (at s i) b')').0 c) (ground arith)
                (paren_loop-ParenRun fuel s (i + 1) (depth - 1) (omega arith)))
        ])
        | inr c ↦ rw c (
            paren_pass inside e (ground arith) (ground arith)
              (paren_loop-ParenRun fuel s (i + 1) depth (omega arith)))
      ])
    ])
  ])
]

equal_index_loop-EqualRun :
    (fuel : ℕ) (s : Bytes) (i depth : ℕ)
    → length s ≤ i + fuel
    → EqualRun s i depth (equal_index_loop fuel s i depth)
unfolding equal_index_loop
equal_index_loop-EqualRun zero s i depth h = equal_end (ge→ltb i (length s) (omega arith))
equal_index_loop-EqualRun (suc fuel) s i depth h = elim (Bool-cases (within s i)) [
  | inr out ↦ rw out (equal_end out)
  | inl inside ↦ rw inside (elim (Option-cases (skipped_span s i)) [
    | inr (end, e) ↦
        let (p, q) = skipped_span-le s i (ltb→lt i (length s) inside) e in
        rw e (equal_skip inside e (equal_index_loop-EqualRun fuel s end depth (omega arith)))
    | inl e ↦ rw e (elim (Bool-cases ((at s i == b'=') && (depth == 0))) [
      | inl c ↦ rw c (equal_found inside e c)
      | inr c ↦ rw c (
          equal_pass inside e c
            (equal_index_loop-EqualRun fuel s (i + 1) (depth_after (at s i) depth) (omega arith)))
    ])
  ])
]

find_keyword_loop-KeywordRun :
    (fuel : ℕ) (s keyword : Bytes) (i depth : ℕ)
    → length s ≤ i + fuel
    → KeywordRun s keyword i depth (find_keyword_loop fuel s keyword i depth)
unfolding find_keyword_loop
find_keyword_loop-KeywordRun zero s keyword i depth h =
    keyword_end (ge→ltb i (length s) (omega arith))
find_keyword_loop-KeywordRun (suc fuel) s keyword i depth h = elim (Bool-cases (within s i)) [
  | inr out ↦ rw out (keyword_end out)
  | inl inside ↦ rw inside (elim (Option-cases (skipped_span s i)) [
    | inr (end, e) ↦
        let (p, q) = skipped_span-le s i (ltb→lt i (length s) inside) e in
        rw e (
          keyword_skip inside e
            (find_keyword_loop-KeywordRun fuel s keyword end depth (omega arith)))
    | inl e ↦ rw e (elim (Bool-cases ((at s i == b'(') || (at s i == b')'))) [
      | inl c ↦ rw c (
          keyword_paren inside e c (
            find_keyword_loop-KeywordRun fuel s keyword (i + 1) (depth_after (at s i) depth)
              (omega arith)))
      | inr c ↦ rw c (elim (Option-cases (read_sql_identifier s i)) [
        | inl r ↦ rw r (
            keyword_pass inside e c r
              (find_keyword_loop-KeywordRun fuel s keyword (i + 1) depth (omega arith)))
        | inr ((word, end), r) ↦
            let (p, q, w) = read_sql_identifier-le s i r in
            rw r (elim (Bool-cases ((depth == 0) && equal_fold word keyword)) [
              | inl f ↦ rw f (keyword_found inside e c r f)
              | inr f ↦ rw f (
                  keyword_word inside e c r f
                    (find_keyword_loop-KeywordRun fuel s keyword end depth (omega arith)))
            ])
      ])
    ])
  ])
]

-- With the length of the text, or more, as fuel, each of the four loops gives the result of a run
-- of the source's loop, of finitely many rounds: it ends by one of its returns and not for lack of fuel.
pub fuel_is_enough :
    (s keyword : Bytes) (pos fuel : ℕ)
    → length s ≤ fuel
    → SplitRun s 0 0 0 (split_loop fuel s 0 0 0)
      × KeywordRun s keyword pos 0 (find_keyword_loop fuel s keyword pos 0)
      × ParenRun s pos 0 (paren_loop fuel s pos 0)
      × EqualRun s 0 0 (equal_index_loop fuel s 0 0)
fuel_is_enough s keyword pos fuel h = (
  split_loop-SplitRun fuel s 0 0 0 (omega arith),
  find_keyword_loop-KeywordRun fuel s keyword pos 0 (omega arith),
  paren_loop-ParenRun fuel s pos 0 (omega arith),
  equal_index_loop-EqualRun fuel s 0 0 (omega arith),
)
