-- ===== src/Prepared/Placeholders.antt =====
-- Counting the placeholders of a statement (`countPlaceholders`).
pub mod Counting
use mysqlmock.Base.{
  ℕ, ◌+◌, Bool, true, false, ◌&&◌, ◌||◌, [], ◌∷◌, ◌==◌, if◌then◌else◌, get_or, Bytes,
}

-- Where the loop stands: the flags lineComment, blockComment, inSingle, inDouble and inBacktick
-- exclude one another; `escaped` belongs to the two quotes that know the backslash.
pub data Mode : Type 0 where
  code : Mode
  line_comment : Mode
  block_comment : Mode
  in_single : Bool → Mode
  in_double : Bool → Mode
  in_backtick : Mode

pub record Scan : Type 0 where
  pub mode : Mode
  -- The byte behind this one is passed over, `i++`.
  pub pass_next : Bool
  pub count : ℕ

abbrev stay : Mode → ℕ → Scan
stay m n = record { mode = m; pass_next = false; count = n }

abbrev pass : Mode → ℕ → Scan
pass m n = record { mode = m; pass_next = true; count = n }

quoted_step : (Bool → Mode) → ℕ → Bool → ℕ → ℕ → Scan
quoted_step inside quote true ch n = stay (inside false) n
quoted_step inside quote false ch n =
    if ch == b'\\'
    then stay (inside true) n
    else if ch == quote
    then stay code n
    else stay (inside false) n

-- One round of the loop, on the byte `ch` and the one behind it.
unfoldable pub step : Mode → ℕ → ℕ → ℕ → Scan
unfolding quoted_step
step line_comment ch next n = if (ch == 10) || (ch == 13) then stay code n else stay line_comment n
step block_comment ch next n =
    if (ch == b'*') && (next == b'/') then pass code n else stay block_comment n
step (in_single escaped) ch next n = quoted_step in_single b'\'' escaped ch n
step (in_double escaped) ch next n = quoted_step in_double b'"' escaped ch n
step in_backtick ch next n = if ch == b'`' then stay code n else stay in_backtick n
step code ch next n =
    if (ch == b'-') && (next == b'-')
    then pass line_comment n
    else if ch == b'#'
    then stay line_comment n
    else if (ch == b'/') && (next == b'*')
    then pass block_comment n
    else if ch == b'\''
    then stay (in_single false) n
    else if ch == b'"'
    then stay (in_double false) n
    else if ch == b'`'
    then stay in_backtick n
    else if ch == b'?'
    then stay code (n + 1)
    else stay code n

unfoldable pub scan_on : Scan → Bytes → Scan
unfolding step
scan_on st [] = st
scan_on st (ch ∷ cs) =
    scan_on
      (if st.pass_next
        then record st { pass_next = false }
        else step st.mode ch (get_or cs 0 0) st.count)
      cs

unfoldable pub count_placeholders : Bytes → ℕ
unfolding scan_on
count_placeholders sql = (scan_on (record { mode = code; pass_next = false; count = 0 }) sql).count
