-- ===== src/Stats.antt =====
-- The counters and timings that the server keeps of its work (`statsStore` of
-- pkg/mysqlmock/stats.go). Each method holds the store's mutex throughout, so that it is one step.
pub mod Kinds
pub mod Tally
pub mod Cloning
pub mod Snapshots
pub mod Counters
pub mod Timings
use mysqlmock.Base.{
  ℕ, zero, suc, ◌+◌, ◌-◌, ◌*◌, ◌/◌, ◌%◌, ◌^◌, ◌≤◌, ◌<◌, ◌≡◌, refl, sym, ap, ◌∙◌, ◌≢◌, ◌↔◌, ◌⊎◌, inl,
  inr, Bool, true, false, not, ◌&&◌, ◌||◌, Option, none, some, List, [], ◌∷◌, ◌++◌, map, append-nil,
  append_assoc, arith, ltb, leb, ◌==◌, if◌then◌else◌, ltb→lt, ltb→ge, lt→ltb, ge→ltb, leb→le,
  le→leb, ==_iff, ==_refl, tests, Bool-cases, Option-cases, length, get_elem?, get_or, set, take,
  drop, replicate, slice, length-append, length-take, length-drop, length-replicate, length-set,
  take-length_append, drop-length_append, take-append-drop, take_all, drop_all, drop-drop, Bytes,
  codes, beq, beq_iff, beq_refl, lower_byte, upper_byte, to_lower, to_upper, equal_fold, has_prefix,
  trim_prefix, has_suffix, trim_suffix, contains, is_space, trim_space, fields, join, index_byte,
}
use mysqlmock.Base.Int.{ℤ, pos, negsuc}
use mysqlmock.Map.{Eq, bytes_eq, Assoc, lookup, insert}
use mysqlmock.Stats.Kinds.{kind_text, query_kind_from_normalized_sql}

pub record QueryStats : Type 0 where
  pub total : ℕ
  pub by_command : Assoc Bytes ℕ
  pub by_route : Assoc Bytes ℕ
  pub by_kind : Assoc Bytes ℕ

pub record MetadataStats : Type 0 where
  pub information_schema_queries : ℕ
  pub targeted_information_schema_queries : ℕ
  pub broad_information_schema_queries : ℕ
  pub broad_information_schema_query_reasons : Assoc Bytes ℕ
  pub show_full_fields_queries : ℕ
  pub show_create_table_queries : ℕ
  pub show_keys_queries : ℕ
  pub target_table_refreshes : ℕ
  pub target_table_cache_hits : ℕ
  pub target_table_misses : ℕ
  pub full_refreshes : ℕ
  pub full_refresh_cache_hits : ℕ
  pub tables_loaded : ℕ

pub record ResetStats : Type 0 where
  pub total : ℕ
  pub data_only : ℕ
  pub full : ℕ

-- Also the three counters that QueryTimingStats and PhaseTimingStats begin with.
pub record TimingBucket : Type 0 where
  pub count : ℕ
  pub total_nanos : ℕ
  pub max_nanos : ℕ

pub record QueryTimingStats : Type 0 where
  pub overall : TimingBucket
  pub by_command : Assoc Bytes TimingBucket
  pub by_route : Assoc Bytes TimingBucket
  pub by_kind : Assoc Bytes TimingBucket

pub record PhaseTimingStats : Type 0 where
  pub overall : TimingBucket
  pub by_phase : Assoc Bytes TimingBucket

pub record TimingStats : Type 0 where
  pub queries : QueryTimingStats
  pub phases : PhaseTimingStats

-- The fields of `Stats` and of `statsStore`, which are the same but for the mutex.
pub record Stats : Type 0 where
  pub queries : QueryStats
  pub metadata : MetadataStats
  pub resets : ResetStats
  pub timings : TimingStats
  pub schema_changes : ℕ
  pub unsupported : ℕ

-- `x++` on a uint64.
abbrev pub increment : ℕ → ℕ
increment x = (x + 1) % 2 ^ 64

abbrev pub count_at : Bytes → Assoc Bytes ℕ → ℕ
count_at key counts = elim (lookup key counts) [ none ↦ 0 | some n ↦ n ]

-- `incrementCount`; a nil map is an empty one.
unfoldable pub increment_count : Bytes → Assoc Bytes ℕ → Assoc Bytes ℕ
increment_count key counts =
    if beq key [] then counts else insert key (increment (count_at key counts)) counts

abbrev pub no_timing : TimingBucket
no_timing = record { count = 0; total_nanos = 0; max_nanos = 0 }

abbrev pub bucket_at : Bytes → Assoc Bytes TimingBucket → TimingBucket
bucket_at key buckets = elim (lookup key buckets) [ none ↦ no_timing | some b ↦ b ]

-- `recordTimingBucket`
unfoldable pub record_timing_bucket : ℕ → TimingBucket → TimingBucket
record_timing_bucket nanos b = record {
  count = increment b.count;
  total_nanos = (b.total_nanos + nanos) % 2 ^ 64;
  max_nanos = if ltb b.max_nanos nanos then nanos else b.max_nanos;
}

-- `incrementTimingBucket`
unfoldable pub increment_timing_bucket :
    Bytes → ℕ → Assoc Bytes TimingBucket → Assoc Bytes TimingBucket
unfolding record_timing_bucket
increment_timing_bucket key nanos buckets =
    if beq key []
    then buckets
    else insert key (record_timing_bucket nanos (bucket_at key buckets)) buckets

-- `durationNanos` of a time.Duration.
unfoldable pub duration_nanos : ℤ → ℕ
duration_nanos (pos n) = n
duration_nanos (negsuc n) = 0

-- The methods that change the store, with the names of the source's.
pub data Recording : Type 0 where
  record_query : (command route normalized_sql : Bytes) → Recording
  record_query_timing : (command route normalized_sql : Bytes) (duration : ℤ) → Recording
  record_phase_timing : (phase : Bytes) (duration : ℤ) → Recording
  record_unsupported : Recording
  record_reset : (kind : Bytes) → Recording
  record_schema_change : Recording
  record_information_schema_query : (targeted : Bool) (broad_reason : Bytes) → Recording
  record_show_full_fields_query : Recording
  record_show_create_table_query : Recording
  record_show_keys_query : Recording
  record_target_table_cache_hit : Recording
  record_target_table_refresh : (exists : Bool) → Recording
  record_full_refresh_cache_hit : Recording
  record_full_refresh : Recording
  record_table_loaded : Recording

abbrev pub kind_of : Bytes → Bytes
kind_of sql = kind_text (query_kind_from_normalized_sql sql)

unfoldable pub query_recorded : Bytes → Bytes → Bytes → QueryStats → QueryStats
unfolding increment_count
query_recorded command route sql q = record {
  total = increment q.total;
  by_command = increment_count command q.by_command;
  by_route = increment_count route q.by_route;
  by_kind = increment_count (kind_of sql) q.by_kind;
}

unfoldable pub query_timed : Bytes → Bytes → Bytes → ℕ → QueryTimingStats → QueryTimingStats
unfolding increment_timing_bucket
query_timed command route sql nanos q = record {
  overall = record_timing_bucket nanos q.overall;
  by_command = increment_timing_bucket command nanos q.by_command;
  by_route = increment_timing_bucket route nanos q.by_route;
  by_kind = increment_timing_bucket (kind_of sql) nanos q.by_kind;
}

unfoldable pub phase_timed : Bytes → ℕ → PhaseTimingStats → PhaseTimingStats
unfolding increment_timing_bucket
phase_timed phase nanos p = if beq phase [] then p else record {
  overall = record_timing_bucket nanos p.overall;
  by_phase = increment_timing_bucket phase nanos p.by_phase;
}

unfoldable pub reset_recorded : Bytes → ResetStats → ResetStats
reset_recorded kind r = record {
  total = increment r.total;
  data_only = if beq kind (codes "data_only") then increment r.data_only else r.data_only;
  full = if beq kind (codes "full") then increment r.full else r.full;
}

unfoldable pub information_schema_recorded : Bool → Bytes → MetadataStats → MetadataStats
unfolding increment_count
information_schema_recorded true broad_reason m = record m {
  information_schema_queries = increment m.information_schema_queries;
  targeted_information_schema_queries = increment m.targeted_information_schema_queries;
}
information_schema_recorded false broad_reason m = record m {
  information_schema_queries = increment m.information_schema_queries;
  broad_information_schema_queries = increment m.broad_information_schema_queries;
  broad_information_schema_query_reasons =
      increment_count broad_reason m.broad_information_schema_query_reasons;
}

unfoldable pub refresh_recorded : Bool → MetadataStats → MetadataStats
refresh_recorded exists m = record m {
  target_table_refreshes = increment m.target_table_refreshes;
  target_table_misses = if exists then m.target_table_misses else increment m.target_table_misses;
}

abbrev pub with_metadata : MetadataStats → Stats → Stats
with_metadata m s = record s { metadata = m }

-- What one method does to the store.
unfoldable pub run_recording : Recording → Stats → Stats
unfolding query_recorded query_timed phase_timed reset_recorded information_schema_recorded
    refresh_recorded
run_recording (record_query command route sql) s = record s {
  queries = query_recorded command route sql s.queries;
}
run_recording (record_query_timing command route sql duration) s = record s {
  timings = record s.timings {
    queries = query_timed command route sql (duration_nanos duration) s.timings.queries;
  };
}
run_recording (record_phase_timing phase duration) s = record s {
  timings = record s.timings {
    phases = phase_timed phase (duration_nanos duration) s.timings.phases;
  };
}
run_recording record_unsupported s = record s { unsupported = increment s.unsupported }
run_recording (record_reset kind) s = record s { resets = reset_recorded kind s.resets }
run_recording record_schema_change s = record s { schema_changes = increment s.schema_changes }
run_recording (record_information_schema_query targeted broad_reason) s =
    with_metadata (information_schema_recorded targeted broad_reason s.metadata) s
run_recording record_show_full_fields_query s =
    with_metadata
      (record s.metadata {
        show_full_fields_queries = increment s.metadata.show_full_fields_queries;
      })
      s
run_recording record_show_create_table_query s =
    with_metadata
      (record s.metadata {
        show_create_table_queries = increment s.metadata.show_create_table_queries;
      })
      s
run_recording record_show_keys_query s =
    with_metadata (record s.metadata { show_keys_queries = increment s.metadata.show_keys_queries })
      s
run_recording record_target_table_cache_hit s =
    with_metadata
      (record s.metadata { target_table_cache_hits = increment s.metadata.target_table_cache_hits })
      s
run_recording (record_target_table_refresh exists) s =
    with_metadata (refresh_recorded exists s.metadata) s
run_recording record_full_refresh_cache_hit s =
    with_metadata
      (record s.metadata { full_refresh_cache_hits = increment s.metadata.full_refresh_cache_hits })
      s
run_recording record_full_refresh s =
    with_metadata (record s.metadata { full_refreshes = increment s.metadata.full_refreshes }) s
run_recording record_table_loaded s =
    with_metadata (record s.metadata { tables_loaded = increment s.metadata.tables_loaded }) s

-- `cloneCountMap` and `cloneTimingBucketMap`: a new map that is filled entry by entry.
unfoldable pub clone_map : {V : Type 0} → Assoc Bytes V → Assoc Bytes V → Assoc Bytes V
clone_map [] out = out
clone_map ((key, value) ∷ rest) out = clone_map rest (insert key value out)

-- `cloneMetadataStats`
unfoldable pub clone_metadata_stats : MetadataStats → MetadataStats
unfolding clone_map
clone_metadata_stats m = record m {
  broad_information_schema_query_reasons = clone_map m.broad_information_schema_query_reasons [];
}

unfoldable pub snapshot : Stats → Stats
unfolding clone_map clone_metadata_stats
snapshot s = record {
  queries = record s.queries {
    by_command = clone_map s.queries.by_command [];
    by_route = clone_map s.queries.by_route [];
    by_kind = clone_map s.queries.by_kind [];
  };
  metadata = clone_metadata_stats s.metadata;
  resets = s.resets;
  timings = record {
    queries = record s.timings.queries {
      by_command = clone_map s.timings.queries.by_command [];
      by_route = clone_map s.timings.queries.by_route [];
      by_kind = clone_map s.timings.queries.by_kind [];
    };
    phases = record s.timings.phases { by_phase = clone_map s.timings.phases.by_phase [] };
  };
  schema_changes = s.schema_changes;
  unsupported = s.unsupported;
}

abbrev pub no_stats : Stats
no_stats = record {
  queries = record { total = 0; by_command = []; by_route = []; by_kind = [] };
  metadata = record {
    information_schema_queries = 0;
    targeted_information_schema_queries = 0;
    broad_information_schema_queries = 0;
    broad_information_schema_query_reasons = [];
    show_full_fields_queries = 0;
    show_create_table_queries = 0;
    show_keys_queries = 0;
    target_table_refreshes = 0;
    target_table_cache_hits = 0;
    target_table_misses = 0;
    full_refreshes = 0;
    full_refresh_cache_hits = 0;
    tables_loaded = 0;
  };
  resets = record { total = 0; data_only = 0; full = 0 };
  timings = record {
    queries = record { overall = no_timing; by_command = []; by_route = []; by_kind = [] };
    phases = record { overall = no_timing; by_phase = [] };
  };
  schema_changes = 0;
  unsupported = 0;
}

unfoldable pub run_recordings : List Recording → Stats → Stats
unfolding run_recording
run_recordings [] s = s
run_recordings (x ∷ xs) s = run_recordings xs (run_recording x s)
