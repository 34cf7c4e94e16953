-- ===== src/Tests/Counters.antt =====
-- Statistics at concrete inputs.
use mysqlmock.Base.{
  ◌%◌, ◌^◌, ◌<◌, ◌≡◌, refl, List, [], ◌∷◌, arith, length, codes, beq, to_upper, trim_space,
}
use mysqlmock.Base.Int.{pos}
use mysqlmock.Map.{bytes_eq}
use mysqlmock.Stats.{
  count_at, bucket_at, Recording, record_query, record_query_timing, snapshot, no_stats,
  run_recordings,
}
use mysqlmock.Stats.Kinds.{kind_text, query_kind_from_normalized_sql}
use mysqlmock.Stats.Tally.{occurrences, durations_at, sum_values}
use mysqlmock.Stats.Counters.{routed_queries, commands, routes, kinds, counters-calls, kinds-sum}
use mysqlmock.Stats.Timings.{timed_queries, keyed, nanos_of, summary, timings-calls}
use mysqlmock.Scanner.{read_sql_identifier}

-- Three statements, of which one is timed.
abbrev recordings : List Recording
recordings =
    record_query (codes "COM_QUERY") (codes "sqlite") (codes "SELECT 1")
    ∷ (record_query_timing (codes "COM_QUERY") (codes "sqlite") (codes "SELECT 1") (pos 40)
        ∷ (record_query (codes "COM_QUERY") (codes "rules") (codes "begin")
            ∷ (record_query (codes "COM_STMT_EXECUTE") (codes "sqlite") (codes "select 2") ∷ [])))

counters-calls_example :
    ((snapshot (run_recordings recordings no_stats)).queries.total
      ≡ length (routed_queries recordings) % 2 ^ 64)
    × (count_at (codes "select") (snapshot (run_recordings recordings no_stats)).queries.by_command
        ≡ occurrences (codes "select") (commands (routed_queries recordings)) % 2 ^ 64)
    × (count_at (codes "select") (snapshot (run_recordings recordings no_stats)).queries.by_route
        ≡ occurrences (codes "select") (routes (routed_queries recordings)) % 2 ^ 64)
    × (count_at (codes "select") (snapshot (run_recordings recordings no_stats)).queries.by_kind
        ≡ occurrences (codes "select") (kinds (routed_queries recordings)) % 2 ^ 64)
unfolding beq
counters-calls_example = counters-calls recordings (codes "select") refl

-- Two of the three statements are queries.
two_selects : occurrences (codes "select") (kinds (routed_queries recordings)) ≡ 2
unfolding occurrences kind_text query_kind_from_normalized_sql trim_space read_sql_identifier
    to_upper
two_selects = refl

three_counted : length (routed_queries recordings) < 2 ^ 64
three_counted = omega arith

kinds-sum_example :
    sum_values (snapshot (run_recordings recordings no_stats)).queries.by_kind
    ≡ (snapshot (run_recordings recordings no_stats)).queries.total
kinds-sum_example = kinds-sum recordings three_counted

timings-calls_example :
    ((snapshot (run_recordings recordings no_stats)).timings.queries.overall
      ≡ summary (nanos_of (timed_queries recordings)))
    × (bucket_at
          (codes "sqlite")
          (snapshot (run_recordings recordings no_stats)).timings.queries.by_command
        ≡ summary
            (durations_at (codes "sqlite") (keyed (λ x. x.command) (timed_queries recordings))))
    × (bucket_at
          (codes "sqlite")
          (snapshot (run_recordings recordings no_stats)).timings.queries.by_route
        ≡ summary (durations_at (codes "sqlite") (keyed (λ x. x.route) (timed_queries recordings))))
    × (bucket_at
          (codes "sqlite")
          (snapshot (run_recordings recordings no_stats)).timings.queries.by_kind
        ≡ summary (durations_at (codes "sqlite") (keyed (λ x. x.kind) (timed_queries recordings))))
unfolding beq
timings-calls_example = timings-calls recordings (codes "sqlite") refl
