-- ===== src/Stats/Timings.antt =====
-- What the timings say of the calls that made them (`recordQueryTiming`, `recordTimingBucket`,
-- `incrementTimingBucket`).
use mysqlmock.Base.{
  ℕ, ◌+◌, ◌%◌, ◌^◌, ◌<◌, ◌≡◌, refl, ap, ◌∙◌, false, List, [], ◌∷◌, arith, ltb, if◌then◌else◌,
  length, Bytes, beq,
}
use mysqlmock.Map.{bytes_eq, lookup}
use mysqlmock.Stats.{
  TimingBucket, QueryTimingStats, Stats, no_timing, bucket_at, record_timing_bucket,
  increment_timing_bucket, duration_nanos, Recording, record_query, record_query_timing,
  record_phase_timing, record_unsupported, record_reset, record_schema_change,
  record_information_schema_query, record_show_full_fields_query, record_show_create_table_query,
  record_show_keys_query, record_target_table_cache_hit, record_target_table_refresh,
  record_full_refresh_cache_hit, record_full_refresh, record_table_loaded, kind_of, query_timed,
  run_recording, snapshot, no_stats, run_recordings,
}
use mysqlmock.Stats.Tally.{tally_timings, durations_at, record_all, bucket_at-tally_timings}
use mysqlmock.Stats.Counters.{Routed}
use mysqlmock.Stats.Snapshots.{snapshot-exact}

-- The statements that a sequence of calls times, with their nanoseconds.
abbrev pub timed_queries : List Recording → List (Routed × ℕ)
timed_queries [] = []
timed_queries (record_query_timing c r q d ∷ xs) =
    (record { command = c; route = r; kind = kind_of q }, duration_nanos d) ∷ timed_queries xs
timed_queries (x ∷ xs) = timed_queries xs

abbrev time_query : Routed → ℕ → QueryTimingStats → QueryTimingStats
time_query x n q = record {
  overall = record_timing_bucket n q.overall;
  by_command = increment_timing_bucket x.command n q.by_command;
  by_route = increment_timing_bucket x.route n q.by_route;
  by_kind = increment_timing_bucket x.kind n q.by_kind;
}

time_queries : List (Routed × ℕ) → QueryTimingStats → QueryTimingStats
time_queries [] q = q
time_queries ((x, n) ∷ xs) q = time_queries xs (time_query x n q)

run_recordings-timings :
    (xs : List Recording) (s : Stats)
    → (run_recordings xs s).timings.queries ≡ time_queries (timed_queries xs) s.timings.queries
unfolding run_recordings run_recording query_timed time_queries
run_recordings-timings [] s = refl
run_recordings-timings (record_query c r q ∷ xs) s =
    run_recordings-timings xs (run_recording (record_query c r q) s)
run_recordings-timings (record_query_timing c r q d ∷ xs) s =
    run_recordings-timings xs (run_recording (record_query_timing c r q d) s)
run_recordings-timings (record_phase_timing p d ∷ xs) s =
    run_recordings-timings xs (run_recording (record_phase_timing p d) s)
run_recordings-timings (record_unsupported ∷ xs) s =
    run_recordings-timings xs (run_recording record_unsupported s)
run_recordings-timings (record_reset k ∷ xs) s =
    run_recordings-timings xs (run_recording (record_reset k) s)
run_recordings-timings (record_schema_change ∷ xs) s =
    run_recordings-timings xs (run_recording record_schema_change s)
run_recordings-timings (record_information_schema_query t w ∷ xs) s =
    run_recordings-timings xs (run_recording (record_information_schema_query t w) s)
run_recordings-timings (record_show_full_fields_query ∷ xs) s =
    run_recordings-timings xs (run_recording record_show_full_fields_query s)
run_recordings-timings (record_show_create_table_query ∷ xs) s =
    run_recordings-timings xs (run_recording record_show_create_table_query s)
run_recordings-timings (record_show_keys_query ∷ xs) s =
    run_recordings-timings xs (run_recording record_show_keys_query s)
run_recordings-timings (record_target_table_cache_hit ∷ xs) s =
    run_recordings-timings xs (run_recording record_target_table_cache_hit s)
run_recordings-timings (record_target_table_refresh e ∷ xs) s =
    run_recordings-timings xs (run_recording (record_target_table_refresh e) s)
run_recordings-timings (record_full_refresh_cache_hit ∷ xs) s =
    run_recordings-timings xs (run_recording record_full_refresh_cache_hit s)
run_recordings-timings (record_full_refresh ∷ xs) s =
    run_recordings-timings xs (run_recording record_full_refresh s)
run_recordings-timings (record_table_loaded ∷ xs) s =
    run_recordings-timings xs (run_recording record_table_loaded s)

-- The durations of the statements under the keys that `f` takes from them.
abbrev pub keyed : (Routed → Bytes) → List (Routed × ℕ) → List (Bytes × ℕ)
keyed f [] = []
keyed f ((x, n) ∷ xs) = (f x, n) ∷ keyed f xs

abbrev pub nanos_of : List (Routed × ℕ) → List ℕ
nanos_of [] = []
nanos_of ((x, n) ∷ xs) = n ∷ nanos_of xs

time_queries-tally :
    (xs : List (Routed × ℕ)) (q : QueryTimingStats)
    → ((time_queries xs q).overall ≡ record_all (nanos_of xs) q.overall)
      × ((time_queries xs q).by_command ≡ tally_timings (keyed (λ x. x.command) xs) q.by_command)
      × ((time_queries xs q).by_route ≡ tally_timings (keyed (λ x. x.route) xs) q.by_route)
      × ((time_queries xs q).by_kind ≡ tally_timings (keyed (λ x. x.kind) xs) q.by_kind)
unfolding time_queries tally_timings record_all
time_queries-tally [] q = (refl, refl, refl, refl)
time_queries-tally ((x, n) ∷ xs) q = time_queries-tally xs (time_query x n q)

-- The bucket that summarises durations: their number, their sum and the longest one.
abbrev pub sum : List ℕ → ℕ
sum [] = 0
sum (n ∷ ns) = n + sum ns

abbrev pub longest : List ℕ → ℕ
longest [] = 0
longest (n ∷ ns) = let m = longest ns in if ltb n m then m else n

abbrev pub summary : List ℕ → TimingBucket
summary ns = record {
  count = length ns % 2 ^ 64;
  total_nanos = sum ns % 2 ^ 64;
  max_nanos = longest ns;
}

record_all-summary :
    (ns : List ℕ) (b : TimingBucket)
    → b.count < 2 ^ 64
    → b.total_nanos < 2 ^ 64
    → ((record_all ns b).count ≡ (b.count + length ns) % 2 ^ 64)
      × ((record_all ns b).total_nanos ≡ (b.total_nanos + sum ns) % 2 ^ 64)
      × ((record_all ns b).max_nanos
          ≡ (if ltb b.max_nanos (longest ns) then longest ns else b.max_nanos))
unfolding record_all record_timing_bucket
record_all-summary [] b c t = (omega arith, omega arith, ground arith)
record_all-summary (n ∷ ns) b c t =
    let (x, y, z) = record_all-summary ns (record_timing_bucket n b) (omega arith) (omega arith) in
    (omega (arith, x), omega (arith, y), ground (arith, z))

same_bucket :
    (a b : TimingBucket)
    → a.count ≡ b.count
    → a.total_nanos ≡ b.total_nanos
    → a.max_nanos ≡ b.max_nanos
    → a ≡ b
same_bucket a b c t m = λ i. record { count = c i; total_nanos = t i; max_nanos = m i }

record_all-no_timing : (ns : List ℕ) → record_all ns no_timing ≡ summary ns
record_all-no_timing ns =
    let (x, y, z) = record_all-summary ns no_timing (omega arith) (omega arith) in
    same_bucket (record_all ns no_timing) (summary ns) (x ∙ omega arith) (y ∙ omega arith)
      (z ∙ ground arith)

timed_at :
    (k : Bytes) (ks : List (Bytes × ℕ))
    → beq k [] ≡ false
    → bucket_at k (tally_timings ks []) ≡ summary (durations_at k ks)
unfolding lookup
timed_at k ks h = bucket_at-tally_timings k ks [] h ∙ record_all-no_timing (durations_at k ks)

-- In a snapshot after calls from empty statistics, the bucket of all timed statements and the
-- buckets under a command, a route and a kind that is not empty have the number, the sum and the
-- maximum of the durations that were recorded there, numbers and sums modulo 2^64.
pub timings-calls :
    (xs : List Recording) (k : Bytes)
    → beq k [] ≡ false
    → ((snapshot (run_recordings xs no_stats)).timings.queries.overall
        ≡ summary (nanos_of (timed_queries xs)))
      × (bucket_at k (snapshot (run_recordings xs no_stats)).timings.queries.by_command
          ≡ summary (durations_at k (keyed (λ x. x.command) (timed_queries xs))))
      × (bucket_at k (snapshot (run_recordings xs no_stats)).timings.queries.by_route
          ≡ summary (durations_at k (keyed (λ x. x.route) (timed_queries xs))))
      × (bucket_at k (snapshot (run_recordings xs no_stats)).timings.queries.by_kind
          ≡ summary (durations_at k (keyed (λ x. x.kind) (timed_queries xs))))
timings-calls xs k h =
    let ts = timed_queries xs in
    let made =
      ap (λ (s : Stats). s.timings.queries) (snapshot-exact xs)
      ∙ run_recordings-timings xs no_stats in
    let (o, c, r, q) = time_queries-tally ts no_stats.timings.queries in
    (
      ap (λ (s : QueryTimingStats). s.overall) made ∙ (o ∙ record_all-no_timing (nanos_of ts)),
      ap (λ (s : QueryTimingStats). bucket_at k s.by_command) made
          ∙ (ap (bucket_at k) c ∙ timed_at k (keyed (λ x. x.command) ts) h),
      ap (λ (s : QueryTimingStats). bucket_at k s.by_route) made
          ∙ (ap (bucket_at k) r ∙ timed_at k (keyed (λ x. x.route) ts) h),
      ap (λ (s : QueryTimingStats). bucket_at k s.by_kind) made
          ∙ (ap (bucket_at k) q ∙ timed_at k (keyed (λ x. x.kind) ts) h),
    )
