-- ===== src/Tests/Texts.antt =====
-- The scanners of SQL texts and the diagnostics at concrete inputs.

use mysqlmock.Scanner.Runs.{EqualRun, ParenRun, KeywordRun, SplitRun}
use mysqlmock.Base.{arith, ◌≤◌, ◌≡◌, refl, [], ◌∷◌, ◌++◌, length, Bytes, codes, join}
use mysqlmock.Prepared.Placeholders.{count_placeholders}
use mysqlmock.Prepared.Placeholders.Counting.{
  Placed, ended, question_mark, single_quoted, hash_comment, count_placeholders-Placed,
}
use mysqlmock.Scanner.TopLevel.{
  split_loop, split_sql_top_level_list, find_keyword_loop, paren_loop, equal_index_loop,
}
use mysqlmock.Scanner.Split.{join-split_sql_top_level_list}
use mysqlmock.Scanner.Fuel.{fuel_is_enough}
use mysqlmock.Stores.Diagnostics.{
  reset, QueryEvent, Diagnostics, record_query, unsupported_snapshot, queries_snapshot, run_calls,
  recorded, recorded_unsupported, snapshot_since_reset,
}

abbrev list : Bytes
list = codes "a, f(b,c), 'x,y'"

join-split_sql_top_level_list_example : join (split_sql_top_level_list list) (codes ",") ≡ list
join-split_sql_top_level_list_example = join-split_sql_top_level_list list

enough_fuel : length list ≤ 20
enough_fuel = omega arith

fuel_is_enough_example :
    SplitRun list 0 0 0 (split_loop 20 list 0 0 0)
    × KeywordRun list (codes "F") 0 0 (find_keyword_loop 20 list (codes "F") 0 0)
    × ParenRun list 0 0 (paren_loop 20 list 0 0)
    × EqualRun list 0 0 (equal_index_loop 20 list 0 0)
fuel_is_enough_example = fuel_is_enough list (codes "F") 0 20 enough_fuel

abbrev event : QueryEvent
event = record {
  event = codes "query";
  connection_id = 1;
  command = codes "COM_QUERY";
  route = codes "rule";
  database = codes "db";
  sql = codes "SELECT 1";
  normalized_sql = codes "SELECT 1";
  suggestion = [];
}

abbrev nothing : Diagnostics
nothing = record { unsupported = []; queries = [] }

snapshot_since_reset_example :
    (queries_snapshot
        (run_calls ((record_query event ∷ []) ++ reset ∷ (record_query event ∷ [])) nothing)
      ≡ recorded (record_query event ∷ []))
    × (unsupported_snapshot
          (run_calls ((record_query event ∷ []) ++ reset ∷ (record_query event ∷ [])) nothing)
        ≡ recorded_unsupported (record_query event ∷ []))
snapshot_since_reset_example =
    snapshot_since_reset (record_query event ∷ []) (record_query event ∷ []) nothing refl

-- A question mark, one in quotes, and one in a comment.
one_mark : Placed (codes "?'?'#?\n") 1
one_mark = question_mark (single_quoted (codes "?") refl (hash_comment (codes "?") refl ended))

count_placeholders-Placed_example : count_placeholders (codes "?'?'#?\n") ≡ 1
count_placeholders-Placed_example = count_placeholders-Placed one_mark
