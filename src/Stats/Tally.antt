-- ===== src/Stats/Tally.antt =====
-- Counters by key (`incrementCount`, `incrementTimingBucket`, `cloneCountMap`): what a sequence of
-- calls leaves in a map.
use mysqlmock.Base.{
  ℕ, suc, ◌+◌, ◌%◌, ◌^◌, ◌≤◌, ◌<◌, ◌≡◌, refl, ap, ◌∙◌, ◌⊎◌, inl, inr, Bool, true, false, not, ◌&&◌,
  List, [], ◌∷◌, arith, if◌then◌else◌, Bool-cases, length, Bytes, beq, beq_iff,
}
use mysqlmock.Map.{bytes_eq, Assoc, lookup, insert}
use mysqlmock.Map.Laws.{lookup-insert}
use mysqlmock.Map.Distinct.{OneEach, insert-OneEach}
use mysqlmock.Stats.{
  TimingBucket, increment, count_at, increment_count, bucket_at, record_timing_bucket,
  increment_timing_bucket,
}

-- The map after one increment for each key.
unfoldable pub tally : List Bytes → Assoc Bytes ℕ → Assoc Bytes ℕ
unfolding increment_count
tally [] m = m
tally (k ∷ ks) m = tally ks (increment_count k m)

-- How often a key occurs in a list.
unfoldable pub occurrences : Bytes → List Bytes → ℕ
occurrences k [] = 0
occurrences k (j ∷ js) = let n = occurrences k js in if beq j k then suc n else n

unfoldable pub tally_timings :
    List (Bytes × ℕ) → Assoc Bytes TimingBucket → Assoc Bytes TimingBucket
unfolding increment_timing_bucket
tally_timings [] m = m
tally_timings ((k, nanos) ∷ ks) m = tally_timings ks (increment_timing_bucket k nanos m)

-- The durations that are recorded under a key.
unfoldable pub durations_at : Bytes → List (Bytes × ℕ) → List ℕ
durations_at k [] = []
durations_at k ((j, nanos) ∷ js) = let ns = durations_at k js in if beq j k then nanos ∷ ns else ns

unfoldable pub record_all : List ℕ → TimingBucket → TimingBucket
unfolding record_timing_bucket
record_all [] b = b
record_all (n ∷ ns) b = record_all ns (record_timing_bucket n b)

lookup_here : (k j : Bytes) → beq j k ≡ true → j ≡ k
lookup_here k j h = (beq_iff j k).0 h

count_at-increment_count :
    (k j : Bytes) (m : Assoc Bytes ℕ)
    → beq k [] ≡ false
    → count_at k (increment_count j m)
      ≡ (if beq j k then increment (count_at k m) else count_at k m)
unfolding increment_count
count_at-increment_count k j m h =
    ground (arith, lookup-insert j k (increment (count_at j m)) m, beq_iff j k, beq_iff j [])

count_at-increment_small :
    (k j : Bytes) (m : Assoc Bytes ℕ)
    → beq k [] ≡ false
    → count_at k m < 2 ^ 64
    → count_at k (increment_count j m) < 2 ^ 64
count_at-increment_small k j m h small = ground (arith, count_at-increment_count k j m h)

pub count_at-tally :
    (k : Bytes) (ks : List Bytes) (m : Assoc Bytes ℕ)
    → beq k [] ≡ false
    → count_at k m < 2 ^ 64
    → count_at k (tally ks m) ≡ (count_at k m + occurrences k ks) % 2 ^ 64
unfolding tally occurrences
count_at-tally k [] m h small = omega arith
count_at-tally k (j ∷ js) m h small =
    let step = count_at-increment_count k j m h in
    let small' = count_at-increment_small k j m h small in
    let rest = count_at-tally k js (increment_count j m) h small' in ground (arith, rest, step)

bucket_at-increment :
    (k j : Bytes) (nanos : ℕ) (m : Assoc Bytes TimingBucket)
    → beq k [] ≡ false
    → bucket_at k (increment_timing_bucket j nanos m)
      ≡ (if beq j k then record_timing_bucket nanos (bucket_at k m) else bucket_at k m)
unfolding increment_timing_bucket
bucket_at-increment k j nanos m h = ground (
  arith,
  lookup-insert j k (record_timing_bucket nanos (bucket_at j m)) m,
  beq_iff j k,
  beq_iff j [],
)

pub bucket_at-tally_timings :
    (k : Bytes) (ks : List (Bytes × ℕ)) (m : Assoc Bytes TimingBucket)
    → beq k [] ≡ false
    → bucket_at k (tally_timings ks m) ≡ record_all (durations_at k ks) (bucket_at k m)
unfolding tally_timings durations_at record_all
bucket_at-tally_timings k [] m h = refl
bucket_at-tally_timings k ((j, nanos) ∷ js) m h =
    by_key (Bool-cases (beq j k)) (bucket_at-increment k j nanos m h)
      (bucket_at-tally_timings k js (increment_timing_bucket j nanos m) h)
  where
    by_key :
        (beq j k ≡ true) ⊎ (beq j k ≡ false)
        → bucket_at k (increment_timing_bucket j nanos m)
          ≡ (if beq j k then record_timing_bucket nanos (bucket_at k m) else bucket_at k m)
        → bucket_at k (tally_timings js (increment_timing_bucket j nanos m))
          ≡ record_all (durations_at k js) (bucket_at k (increment_timing_bucket j nanos m))
        → bucket_at k (tally_timings js (increment_timing_bucket j nanos m))
          ≡ record_all
              (if beq j k then nanos ∷ durations_at k js else durations_at k js)
              (bucket_at k m)
    by_key (inl e) step rest =
        rest ∙ (ap (record_all (durations_at k js)) (rw e at step) ∙ rw e refl)
    by_key (inr e) step rest =
        rest ∙ (ap (record_all (durations_at k js)) (rw e at step) ∙ rw e refl)

pub increment_count-OneEach :
    (k : Bytes) (m : Assoc Bytes ℕ) → OneEach m → OneEach (increment_count k m)
unfolding increment_count
increment_count-OneEach k m d = elim (Bool-cases (beq k [])) [
  | inl e ↦ rw e d
  | inr e ↦ rw e (insert-OneEach k (increment (count_at k m)) m d)
]

pub tally-OneEach : (ks : List Bytes) (m : Assoc Bytes ℕ) → OneEach m → OneEach (tally ks m)
unfolding tally
tally-OneEach [] m d = d
tally-OneEach (k ∷ ks) m d = tally-OneEach ks (increment_count k m) (increment_count-OneEach k m d)

pub increment_timing_bucket-OneEach :
    (k : Bytes) (n : ℕ) (m : Assoc Bytes TimingBucket)
    → OneEach m
    → OneEach (increment_timing_bucket k n m)
unfolding increment_timing_bucket
increment_timing_bucket-OneEach k n m d = elim (Bool-cases (beq k [])) [
  | inl e ↦ rw e d
  | inr e ↦ rw e (insert-OneEach k (record_timing_bucket n (bucket_at k m)) m d)
]

pub tally_timings-OneEach :
    (ks : List (Bytes × ℕ)) (m : Assoc Bytes TimingBucket)
    → OneEach m
    → OneEach (tally_timings ks m)
unfolding tally_timings
tally_timings-OneEach [] m d = d
tally_timings-OneEach ((k, n) ∷ ks) m d =
    tally_timings-OneEach ks (increment_timing_bucket k n m)
      (increment_timing_bucket-OneEach k n m d)

-- The sum of a map's counters.
unfoldable pub sum_values : Assoc Bytes ℕ → ℕ
sum_values [] = 0
sum_values ((k, n) ∷ m) = n + sum_values m

count_at-le : (k : Bytes) (m : Assoc Bytes ℕ) → count_at k m ≤ sum_values m
unfolding sum_values lookup
count_at-le k [] = omega arith
count_at-le k ((j, w) ∷ m) = ground (arith, count_at-le k m)

sum_values-insert :
    (k : Bytes) (v : ℕ) (m : Assoc Bytes ℕ)
    → sum_values (insert k v m) + count_at k m ≡ sum_values m + v
unfolding sum_values insert lookup
sum_values-insert k v [] = omega arith
sum_values-insert k v ((j, w) ∷ m) = ground (arith, sum_values-insert k v m)

unfoldable pub all_named : List Bytes → Bool
all_named [] = true
all_named (k ∷ ks) = not (beq k []) && all_named ks

pub sum_values-tally :
    (ks : List Bytes) (m : Assoc Bytes ℕ)
    → all_named ks ≡ true
    → sum_values m + length ks < 2 ^ 64
    → sum_values (tally ks m) ≡ sum_values m + length ks
unfolding tally all_named increment_count
sum_values-tally [] m h small = omega arith
sum_values-tally (k ∷ ks) m h small =
    let here : beq k [] ≡ false = ground arith in
    let later : all_named ks ≡ true = ground arith in
    let step = sum_values-insert k (increment (count_at k m)) m in
    let grown : sum_values (increment_count k m) ≡ sum_values m + 1 =
      rw here (omega (arith, step, count_at-le k m)) in
    sum_values-tally ks (increment_count k m) later (omega (arith, grown)) ∙ omega (arith, grown)
