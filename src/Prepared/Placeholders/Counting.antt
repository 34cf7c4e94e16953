-- ===== src/Prepared/Placeholders/Counting.antt =====
-- About `countPlaceholders`, with a grammar of texts.
use mysqlmock.Base.{
  ℕ, suc, ◌+◌, ◌≡◌, refl, ap, ◌∙◌, Bool, true, false, not, ◌&&◌, ◌||◌, [], ◌∷◌, ◌++◌, arith, ◌==◌,
  get_or, Bytes, codes,
}
use mysqlmock.Prepared.Placeholders.{
  Mode, code, line_comment, block_comment, in_single, in_double, in_backtick, Scan, step, scan_on,
  count_placeholders, quoted_step,
}

-- None of the bytes stands in the list.
abbrev pub is_one_of : ℕ → Bytes → Bool
is_one_of c [] = false
is_one_of c (d ∷ ds) = (c == d) || is_one_of c ds

abbrev pub is_free_of : Bytes → Bytes → Bool
is_free_of stops [] = true
is_free_of stops (c ∷ cs) = not (is_one_of c stops) && is_free_of stops cs

-- A text of plain bytes, question marks, quoted pieces and comments, with the number of question
-- marks that stand outside of these.
pub data Placed : Bytes → ℕ → Type 0 where
  ended : Placed [] 0
  plain :
      {rest : Bytes} {n : ℕ} (c : ℕ)
      → is_one_of c (codes "-#/'\"`?") ≡ false
      → Placed rest n
      → Placed (c ∷ rest) n
  question_mark : {rest : Bytes} {n : ℕ} → Placed rest n → Placed (b'?' ∷ rest) (suc n)
  single_quoted :
      {rest : Bytes} {n : ℕ} (body : Bytes)
      → is_free_of (codes "\\'") body ≡ true
      → Placed rest n
      → Placed (b'\'' ∷ (body ++ b'\'' ∷ rest)) n
  double_quoted :
      {rest : Bytes} {n : ℕ} (body : Bytes)
      → is_free_of (codes "\\\"") body ≡ true
      → Placed rest n
      → Placed (b'"' ∷ (body ++ b'"' ∷ rest)) n
  backtick_quoted :
      {rest : Bytes} {n : ℕ} (body : Bytes)
      → is_free_of (codes "`") body ≡ true
      → Placed rest n
      → Placed (b'`' ∷ (body ++ b'`' ∷ rest)) n
  hash_comment :
      {rest : Bytes} {n : ℕ} (body : Bytes)
      → is_free_of (10 ∷ 13 ∷ []) body ≡ true
      → Placed rest n
      → Placed (b'#' ∷ (body ++ 10 ∷ rest)) n
  dash_comment :
      {rest : Bytes} {n : ℕ} (body : Bytes)
      → is_free_of (10 ∷ 13 ∷ []) body ≡ true
      → Placed rest n
      → Placed (b'-' ∷ (b'-' ∷ (body ++ 10 ∷ rest))) n
  block :
      {rest : Bytes} {n : ℕ} (body : Bytes)
      → is_free_of (codes "*") body ≡ true
      → Placed rest n
      → Placed (b'/' ∷ (b'*' ∷ (body ++ (b'*' ∷ (b'/' ∷ rest))))) n

abbrev in_mode : Mode → ℕ → Scan
in_mode m n = record { mode = m; pass_next = false; count = n }

-- A mode that stays over a body goes on behind it.
over_body :
    (m : Mode) (stops : Bytes) (n : ℕ) (body rest : Bytes)
    → ((c next : ℕ) → is_one_of c stops ≡ false → step m c next n ≡ in_mode m n)
    → is_free_of stops body ≡ true
    → scan_on (in_mode m n) (body ++ rest) ≡ scan_on (in_mode m n) rest
unfolding scan_on
over_body m stops n [] rest stays h = refl
over_body m stops n (c ∷ body) rest stays h =
    let free : is_one_of c stops ≡ false = ground arith in
    let later : is_free_of stops body ≡ true = ground arith in
    ap (λ st. scan_on st (body ++ rest)) (stays c (get_or (body ++ rest) 0 0) free)
    ∙ over_body m stops n body rest stays later

scan_on-Placed :
    {s : Bytes} {m : ℕ} (n : ℕ) → Placed s m → (scan_on (in_mode code n) s).count ≡ n + m
unfolding scan_on step quoted_step
scan_on-Placed n ended = omega arith
scan_on-Placed n (plain {rest = rest} c h p) =
    let same : step code c (get_or rest 0 0) n ≡ in_mode code n = ground arith in
    ap (λ st. (scan_on st rest).count) same ∙ scan_on-Placed n p
scan_on-Placed n (question_mark p) = scan_on-Placed (n + 1) p ∙ (omega arith)
scan_on-Placed n (single_quoted {rest = rest} body h p) =
    ap (λ st. st.count)
      (over_body (in_single false) (codes "\\'") n body (b'\'' ∷ rest) (λ c next f. ground arith) h)
    ∙ scan_on-Placed n p
scan_on-Placed n (double_quoted {rest = rest} body h p) =
    ap (λ st. st.count)
      (over_body (in_double false) (codes "\\\"") n body (b'"' ∷ rest) (λ c next f. ground arith) h)
    ∙ scan_on-Placed n p
scan_on-Placed n (backtick_quoted {rest = rest} body h p) =
    ap (λ st. st.count)
      (over_body in_backtick (codes "`") n body (b'`' ∷ rest) (λ c next f. ground arith) h)
    ∙ scan_on-Placed n p
scan_on-Placed n (hash_comment {rest = rest} body h p) =
    ap (λ st. st.count)
      (over_body line_comment (10 ∷ 13 ∷ []) n body (10 ∷ rest) (λ c next f. ground arith) h)
    ∙ scan_on-Placed n p
scan_on-Placed n (dash_comment {rest = rest} body h p) =
    ap (λ st. st.count)
      (over_body line_comment (10 ∷ 13 ∷ []) n body (10 ∷ rest) (λ c next f. ground arith) h)
    ∙ scan_on-Placed n p
scan_on-Placed n (block {rest = rest} body h p) =
    ap (λ st. st.count)
      (over_body block_comment (codes "*") n body (b'*' ∷ (b'/' ∷ rest)) (λ c next f. ground arith)
        h)
    ∙ scan_on-Placed n p

-- In a text of plain bytes, question marks, quoted pieces without their quote and backslashes,
-- comments to the end of a line and block comments without inner stars, the placeholders that are
-- counted are the question marks outside the quotes and comments.
pub count_placeholders-Placed : {s : Bytes} {n : ℕ} → Placed s n → count_placeholders s ≡ n
unfolding count_placeholders
count_placeholders-Placed p = scan_on-Placed 0 p ∙ (omega arith)
