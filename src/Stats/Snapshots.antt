-- ===== src/Stats/Snapshots.antt =====
-- Snapshots of the statistics (`snapshot`, `cloneCountMap`, `cloneTimingBucketMap`).
use mysqlmock.Base.{ℕ, ◌≡◌, refl, inl, inr, true, false, List, [], ◌∷◌, Bool-cases, Bytes, beq}
use mysqlmock.Map.{bytes_eq}
use mysqlmock.Map.Distinct.{OneEach, insert-OneEach}
use mysqlmock.Stats.{
  PhaseTimingStats, Stats, bucket_at, record_timing_bucket, duration_nanos, Recording, record_query,
  record_query_timing, record_phase_timing, record_unsupported, record_reset, record_schema_change,
  record_information_schema_query, record_show_full_fields_query, record_show_create_table_query,
  record_show_keys_query, record_target_table_cache_hit, record_target_table_refresh,
  record_full_refresh_cache_hit, record_full_refresh, record_table_loaded, kind_of, query_recorded,
  query_timed, phase_timed, information_schema_recorded, refresh_recorded, run_recording,
  clone_metadata_stats, snapshot, no_stats, run_recordings,
}
use mysqlmock.Stats.Cloning.{clone_map-copy}
use mysqlmock.Stats.Tally.{increment_count-OneEach, increment_timing_bucket-OneEach}

-- Every map of the store has one entry for each key.
pub record WellFormed (s : Stats) : Type 0 where
  pub commands : OneEach s.queries.by_command
  pub routes : OneEach s.queries.by_route
  pub kinds : OneEach s.queries.by_kind
  pub reasons : OneEach s.metadata.broad_information_schema_query_reasons
  pub timed_commands : OneEach s.timings.queries.by_command
  pub timed_routes : OneEach s.timings.queries.by_route
  pub timed_kinds : OneEach s.timings.queries.by_kind
  pub timed_phases : OneEach s.timings.phases.by_phase

phase_timed-OneEach :
    (p : Bytes) (n : ℕ) (t : PhaseTimingStats)
    → OneEach t.by_phase
    → OneEach (phase_timed p n t).by_phase
unfolding phase_timed
phase_timed-OneEach p n t d = elim (Bool-cases (beq p [])) [
  | inl e ↦ rw e d
  | inr e ↦ rw e (insert-OneEach p (record_timing_bucket n (bucket_at p t.by_phase)) t.by_phase d)
]

run_recording-WellFormed :
    (x : Recording) (s : Stats) → WellFormed s → WellFormed (run_recording x s)
unfolding run_recording query_recorded query_timed information_schema_recorded refresh_recorded
run_recording-WellFormed (record_query c r q) s w = record {
  commands = increment_count-OneEach c s.queries.by_command w.commands;
  routes = increment_count-OneEach r s.queries.by_route w.routes;
  kinds = increment_count-OneEach (kind_of q) s.queries.by_kind w.kinds;
  reasons = w.reasons;
  timed_commands = w.timed_commands;
  timed_routes = w.timed_routes;
  timed_kinds = w.timed_kinds;
  timed_phases = w.timed_phases;
}
run_recording-WellFormed (record_query_timing c r q d) s w = record {
  commands = w.commands;
  routes = w.routes;
  kinds = w.kinds;
  reasons = w.reasons;
  timed_commands =
      increment_timing_bucket-OneEach c (duration_nanos d) s.timings.queries.by_command
        w.timed_commands;
  timed_routes =
      increment_timing_bucket-OneEach r (duration_nanos d) s.timings.queries.by_route
        w.timed_routes;
  timed_kinds =
      increment_timing_bucket-OneEach (kind_of q) (duration_nanos d) s.timings.queries.by_kind
        w.timed_kinds;
  timed_phases = w.timed_phases;
}
run_recording-WellFormed (record_phase_timing p d) s w = record {
  commands = w.commands;
  routes = w.routes;
  kinds = w.kinds;
  reasons = w.reasons;
  timed_commands = w.timed_commands;
  timed_routes = w.timed_routes;
  timed_kinds = w.timed_kinds;
  timed_phases = phase_timed-OneEach p (duration_nanos d) s.timings.phases w.timed_phases;
}
run_recording-WellFormed record_unsupported s w = record {
  commands = w.commands;
  routes = w.routes;
  kinds = w.kinds;
  reasons = w.reasons;
  timed_commands = w.timed_commands;
  timed_routes = w.timed_routes;
  timed_kinds = w.timed_kinds;
  timed_phases = w.timed_phases;
}
run_recording-WellFormed (record_reset k) s w = record {
  commands = w.commands;
  routes = w.routes;
  kinds = w.kinds;
  reasons = w.reasons;
  timed_commands = w.timed_commands;
  timed_routes = w.timed_routes;
  timed_kinds = w.timed_kinds;
  timed_phases = w.timed_phases;
}
run_recording-WellFormed record_schema_change s w = record {
  commands = w.commands;
  routes = w.routes;
  kinds = w.kinds;
  reasons = w.reasons;
  timed_commands = w.timed_commands;
  timed_routes = w.timed_routes;
  timed_kinds = w.timed_kinds;
  timed_phases = w.timed_phases;
}
run_recording-WellFormed (record_information_schema_query true b) s w = record {
  commands = w.commands;
  routes = w.routes;
  kinds = w.kinds;
  reasons = w.reasons;
  timed_commands = w.timed_commands;
  timed_routes = w.timed_routes;
  timed_kinds = w.timed_kinds;
  timed_phases = w.timed_phases;
}
run_recording-WellFormed (record_information_schema_query false b) s w = record {
  commands = w.commands;
  routes = w.routes;
  kinds = w.kinds;
  reasons = increment_count-OneEach b s.metadata.broad_information_schema_query_reasons w.reasons;
  timed_commands = w.timed_commands;
  timed_routes = w.timed_routes;
  timed_kinds = w.timed_kinds;
  timed_phases = w.timed_phases;
}
run_recording-WellFormed record_show_full_fields_query s w = record {
  commands = w.commands;
  routes = w.routes;
  kinds = w.kinds;
  reasons = w.reasons;
  timed_commands = w.timed_commands;
  timed_routes = w.timed_routes;
  timed_kinds = w.timed_kinds;
  timed_phases = w.timed_phases;
}
run_recording-WellFormed record_show_create_table_query s w = record {
  commands = w.commands;
  routes = w.routes;
  kinds = w.kinds;
  reasons = w.reasons;
  timed_commands = w.timed_commands;
  timed_routes = w.timed_routes;
  timed_kinds = w.timed_kinds;
  timed_phases = w.timed_phases;
}
run_recording-WellFormed record_show_keys_query s w = record {
  commands = w.commands;
  routes = w.routes;
  kinds = w.kinds;
  reasons = w.reasons;
  timed_commands = w.timed_commands;
  timed_routes = w.timed_routes;
  timed_kinds = w.timed_kinds;
  timed_phases = w.timed_phases;
}
run_recording-WellFormed record_target_table_cache_hit s w = record {
  commands = w.commands;
  routes = w.routes;
  kinds = w.kinds;
  reasons = w.reasons;
  timed_commands = w.timed_commands;
  timed_routes = w.timed_routes;
  timed_kinds = w.timed_kinds;
  timed_phases = w.timed_phases;
}
run_recording-WellFormed (record_target_table_refresh e) s w = record {
  commands = w.commands;
  routes = w.routes;
  kinds = w.kinds;
  reasons = w.reasons;
  timed_commands = w.timed_commands;
  timed_routes = w.timed_routes;
  timed_kinds = w.timed_kinds;
  timed_phases = w.timed_phases;
}
run_recording-WellFormed record_full_refresh_cache_hit s w = record {
  commands = w.commands;
  routes = w.routes;
  kinds = w.kinds;
  reasons = w.reasons;
  timed_commands = w.timed_commands;
  timed_routes = w.timed_routes;
  timed_kinds = w.timed_kinds;
  timed_phases = w.timed_phases;
}
run_recording-WellFormed record_full_refresh s w = record {
  commands = w.commands;
  routes = w.routes;
  kinds = w.kinds;
  reasons = w.reasons;
  timed_commands = w.timed_commands;
  timed_routes = w.timed_routes;
  timed_kinds = w.timed_kinds;
  timed_phases = w.timed_phases;
}
run_recording-WellFormed record_table_loaded s w = record {
  commands = w.commands;
  routes = w.routes;
  kinds = w.kinds;
  reasons = w.reasons;
  timed_commands = w.timed_commands;
  timed_routes = w.timed_routes;
  timed_kinds = w.timed_kinds;
  timed_phases = w.timed_phases;
}

pub run_recordings-WellFormed :
    (xs : List Recording) (s : Stats) → WellFormed s → WellFormed (run_recordings xs s)
unfolding run_recordings
run_recordings-WellFormed [] s w = w
run_recordings-WellFormed (x ∷ xs) s w =
    run_recordings-WellFormed xs (run_recording x s) (run_recording-WellFormed x s w)

pub no_stats-WellFormed : WellFormed no_stats
unfolding OneEach
no_stats-WellFormed = record {
  commands = tt;
  routes = tt;
  kinds = tt;
  reasons = tt;
  timed_commands = tt;
  timed_routes = tt;
  timed_kinds = tt;
  timed_phases = tt;
}

pub snapshot-copy : (s : Stats) → WellFormed s → snapshot s ≡ s
unfolding snapshot clone_metadata_stats
snapshot-copy s w =
    rw
      (
        clone_map-copy s.queries.by_command w.commands,
        clone_map-copy s.queries.by_route w.routes,
        clone_map-copy s.queries.by_kind w.kinds,
        clone_map-copy s.metadata.broad_information_schema_query_reasons w.reasons,
        clone_map-copy s.timings.queries.by_command w.timed_commands,
        clone_map-copy s.timings.queries.by_route w.timed_routes,
        clone_map-copy s.timings.queries.by_kind w.timed_kinds,
        clone_map-copy s.timings.phases.by_phase w.timed_phases,
      )
      refl

-- After any calls from empty statistics, a snapshot is an exact copy of the store.
pub snapshot-exact :
    (xs : List Recording) → snapshot (run_recordings xs no_stats) ≡ run_recordings xs no_stats
snapshot-exact xs =
    snapshot-copy (run_recordings xs no_stats)
      (run_recordings-WellFormed xs no_stats no_stats-WellFormed)
