-- ===== src/Stats/Counters.antt =====
-- What the statistics say of the calls that made them (`recordQuery`, `recordQueryTiming`,
-- `recordPhaseTiming` and `snapshot` of `statsStore`).
use mysqlmock.Base.{
  suc, ◌+◌, ◌%◌, ◌^◌, ◌<◌, ◌≡◌, refl, ap, ◌∙◌, true, false, List, [], ◌∷◌, map, arith, length,
  Bytes, beq,
}
use mysqlmock.Map.{bytes_eq, lookup}
use mysqlmock.Stats.{
  QueryStats, Stats, increment, count_at, increment_count, Recording, record_query,
  record_query_timing, record_phase_timing, record_unsupported, record_reset, record_schema_change,
  record_information_schema_query, record_show_full_fields_query, record_show_create_table_query,
  record_show_keys_query, record_target_table_cache_hit, record_target_table_refresh,
  record_full_refresh_cache_hit, record_full_refresh, record_table_loaded, kind_of, query_recorded,
  run_recording, snapshot, no_stats, run_recordings,
}
use mysqlmock.Stats.Tally.{
  tally, occurrences, count_at-tally, sum_values, all_named, sum_values-tally,
}
use mysqlmock.Stats.Kinds.{kind_text-named, query_kind_from_normalized_sql}
use mysqlmock.Stats.Snapshots.{snapshot-exact}

-- A routed statement: its command, its route and its kind.
pub record Routed : Type 0 where
  pub command : Bytes
  pub route : Bytes
  pub kind : Bytes

-- The statements that a sequence of calls counts, in order.
abbrev pub routed_queries : List Recording → List Routed
routed_queries [] = []
routed_queries (record_query c r q ∷ xs) =
    record { command = c; route = r; kind = kind_of q } ∷ routed_queries xs
routed_queries (x ∷ xs) = routed_queries xs

abbrev count_query : Routed → QueryStats → QueryStats
count_query x q = record {
  total = increment q.total;
  by_command = increment_count x.command q.by_command;
  by_route = increment_count x.route q.by_route;
  by_kind = increment_count x.kind q.by_kind;
}

count_queries : List Routed → QueryStats → QueryStats
count_queries [] q = q
count_queries (x ∷ xs) q = count_queries xs (count_query x q)

run_recordings-queries :
    (xs : List Recording) (s : Stats)
    → (run_recordings xs s).queries ≡ count_queries (routed_queries xs) s.queries
unfolding run_recordings run_recording query_recorded count_queries
run_recordings-queries [] s = refl
run_recordings-queries (record_query c r q ∷ xs) s =
    run_recordings-queries xs (run_recording (record_query c r q) s)
run_recordings-queries (record_query_timing c r q d ∷ xs) s =
    run_recordings-queries xs (run_recording (record_query_timing c r q d) s)
run_recordings-queries (record_phase_timing p d ∷ xs) s =
    run_recordings-queries xs (run_recording (record_phase_timing p d) s)
run_recordings-queries (record_unsupported ∷ xs) s =
    run_recordings-queries xs (run_recording record_unsupported s)
run_recordings-queries (record_reset k ∷ xs) s =
    run_recordings-queries xs (run_recording (record_reset k) s)
run_recordings-queries (record_schema_change ∷ xs) s =
    run_recordings-queries xs (run_recording record_schema_change s)
run_recordings-queries (record_information_schema_query t w ∷ xs) s =
    run_recordings-queries xs (run_recording (record_information_schema_query t w) s)
run_recordings-queries (record_show_full_fields_query ∷ xs) s =
    run_recordings-queries xs (run_recording record_show_full_fields_query s)
run_recordings-queries (record_show_create_table_query ∷ xs) s =
    run_recordings-queries xs (run_recording record_show_create_table_query s)
run_recordings-queries (record_show_keys_query ∷ xs) s =
    run_recordings-queries xs (run_recording record_show_keys_query s)
run_recordings-queries (record_target_table_cache_hit ∷ xs) s =
    run_recordings-queries xs (run_recording record_target_table_cache_hit s)
run_recordings-queries (record_target_table_refresh e ∷ xs) s =
    run_recordings-queries xs (run_recording (record_target_table_refresh e) s)
run_recordings-queries (record_full_refresh_cache_hit ∷ xs) s =
    run_recordings-queries xs (run_recording record_full_refresh_cache_hit s)
run_recordings-queries (record_full_refresh ∷ xs) s =
    run_recordings-queries xs (run_recording record_full_refresh s)
run_recordings-queries (record_table_loaded ∷ xs) s =
    run_recordings-queries xs (run_recording record_table_loaded s)

abbrev pub commands : List Routed → List Bytes
commands = map (λ x. x.command)

abbrev pub routes : List Routed → List Bytes
routes = map (λ x. x.route)

abbrev pub kinds : List Routed → List Bytes
kinds = map (λ x. x.kind)

count_queries-tally :
    (xs : List Routed) (q : QueryStats)
    → ((count_queries xs q).by_command ≡ tally (commands xs) q.by_command)
      × ((count_queries xs q).by_route ≡ tally (routes xs) q.by_route)
      × ((count_queries xs q).by_kind ≡ tally (kinds xs) q.by_kind)
unfolding count_queries tally
count_queries-tally [] q = (refl, refl, refl)
count_queries-tally (x ∷ xs) q = count_queries-tally xs (count_query x q)

count_queries-total :
    (xs : List Routed) (q : QueryStats)
    → q.total < 2 ^ 64
    → (count_queries xs q).total ≡ (q.total + length xs) % 2 ^ 64
unfolding count_queries
count_queries-total [] q h = omega arith
count_queries-total (x ∷ xs) q h =
    omega (arith, count_queries-total xs (count_query x q) (omega arith))

count_at-tally_nil :
    (k : Bytes) (ks : List Bytes)
    → beq k [] ≡ false
    → count_at k (tally ks []) ≡ occurrences k ks % 2 ^ 64
unfolding lookup
count_at-tally_nil k ks h = count_at-tally k ks [] h (omega arith) ∙ omega arith

made_queries :
    (xs : List Recording)
    → (snapshot (run_recordings xs no_stats)).queries
      ≡ count_queries (routed_queries xs) no_stats.queries
made_queries xs =
    ap (λ (s : Stats). s.queries) (snapshot-exact xs) ∙ run_recordings-queries xs no_stats

-- A snapshot after calls from empty statistics has the number of statements that were counted, and
-- under each command, route and kind that is not empty the number of those with it, modulo 2^64.
pub counters-calls :
    (xs : List Recording) (k : Bytes)
    → beq k [] ≡ false
    → ((snapshot (run_recordings xs no_stats)).queries.total ≡ length (routed_queries xs) % 2 ^ 64)
      × (count_at k (snapshot (run_recordings xs no_stats)).queries.by_command
          ≡ occurrences k (commands (routed_queries xs)) % 2 ^ 64)
      × (count_at k (snapshot (run_recordings xs no_stats)).queries.by_route
          ≡ occurrences k (routes (routed_queries xs)) % 2 ^ 64)
      × (count_at k (snapshot (run_recordings xs no_stats)).queries.by_kind
          ≡ occurrences k (kinds (routed_queries xs)) % 2 ^ 64)
counters-calls xs k h =
    let rs = routed_queries xs in
    let made = made_queries xs in
    let (c, r, q) = count_queries-tally rs no_stats.queries in
    let total = count_queries-total rs no_stats.queries (omega arith) in
    (
      ap (λ (s : QueryStats). s.total) made ∙ (total ∙ omega arith),
      ap (λ (s : QueryStats). count_at k s.by_command) made
          ∙ (ap (count_at k) c ∙ count_at-tally_nil k (commands rs) h),
      ap (λ (s : QueryStats). count_at k s.by_route) made
          ∙ (ap (count_at k) r ∙ count_at-tally_nil k (routes rs) h),
      ap (λ (s : QueryStats). count_at k s.by_kind) made
          ∙ (ap (count_at k) q ∙ count_at-tally_nil k (kinds rs) h),
    )

kinds-named : (xs : List Recording) → all_named (kinds (routed_queries xs)) ≡ true
unfolding all_named
kinds-named [] = refl
kinds-named (record_query c r q ∷ xs) =
    rw (kind_text-named (query_kind_from_normalized_sql q)) (kinds-named xs)
kinds-named (record_query_timing c r q d ∷ xs) = kinds-named xs
kinds-named (record_phase_timing p d ∷ xs) = kinds-named xs
kinds-named (record_unsupported ∷ xs) = kinds-named xs
kinds-named (record_reset k ∷ xs) = kinds-named xs
kinds-named (record_schema_change ∷ xs) = kinds-named xs
kinds-named (record_information_schema_query t w ∷ xs) = kinds-named xs
kinds-named (record_show_full_fields_query ∷ xs) = kinds-named xs
kinds-named (record_show_create_table_query ∷ xs) = kinds-named xs
kinds-named (record_show_keys_query ∷ xs) = kinds-named xs
kinds-named (record_target_table_cache_hit ∷ xs) = kinds-named xs
kinds-named (record_target_table_refresh e ∷ xs) = kinds-named xs
kinds-named (record_full_refresh_cache_hit ∷ xs) = kinds-named xs
kinds-named (record_full_refresh ∷ xs) = kinds-named xs
kinds-named (record_table_loaded ∷ xs) = kinds-named xs

length-kinds : (xs : List Routed) → length (kinds xs) ≡ length xs
length-kinds [] = refl
length-kinds (x ∷ xs) = ap suc (length-kinds xs)

-- After fewer than 2^64 counted statements, the counters of the kinds in a snapshot add up to the
-- total: every statement has exactly one kind.
pub kinds-sum :
    (xs : List Recording)
    → length (routed_queries xs) < 2 ^ 64
    → sum_values (snapshot (run_recordings xs no_stats)).queries.by_kind
      ≡ (snapshot (run_recordings xs no_stats)).queries.total
unfolding sum_values
kinds-sum xs h =
    let rs = routed_queries xs in
    let made = made_queries xs in
    let l = length-kinds rs in
    let total =
      ap (λ (s : QueryStats). s.total) made
      ∙ count_queries-total rs no_stats.queries (omega arith) in
    let parts =
      ap (λ (s : QueryStats). sum_values s.by_kind) made
      ∙ (ap sum_values (count_queries-tally rs no_stats.queries).2
          ∙ sum_values-tally (kinds rs) [] (kinds-named xs) (omega (arith, l))) in
    omega (arith, total, parts, l)
