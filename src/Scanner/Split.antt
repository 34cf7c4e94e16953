-- ===== src/Scanner/Split.antt =====
-- About `splitSQLTopLevelList`.
use mysqlmock.Base.{
  subst, ℕ, zero, suc, ◌+◌, ◌-◌, ◌≤◌, ◌<◌, ◌≡◌, refl, sym, ap, ◌∙◌, inl, inr, ◌&&◌, List, [], ◌∷◌,
  ◌++◌, arith, ◌==◌, ltb→lt, Bool-cases, Option-cases, length, drop, slice, take-append-drop,
  drop-drop, Bytes, codes, join,
}
use mysqlmock.Scanner.{at, within, skipped_span}
use mysqlmock.Scanner.TopLevel.{depth_after, split_loop, split_sql_top_level_list}
use mysqlmock.Scanner.Spans.{skipped_span-le}
use native.Mathlib.Numerals.{add-one}

drop-at : (s : Bytes) (i : ℕ) → i < length s → drop i s ≡ at s i ∷ drop (suc i) s
drop-at [] i h = absurd (omega arith)
drop-at (c ∷ s) zero h = refl
drop-at (c ∷ s) (suc i) h = drop-at s i (omega arith)

slice-append-drop :
    (s : Bytes) (start i : ℕ) → start ≤ i → slice s start i ++ drop i s ≡ drop start s
slice-append-drop s start i h =
    let e : start + (i - start) ≡ i = omega arith in
    ap (λ r. slice s start i ++ r) (sym (drop-drop (i - start) start s ∙ ap (λ k. drop k s) e))
    ∙ take-append-drop (i - start) (drop start s)

-- The text from `start` on, cut at the byte of position `i`.
slice-at :
    (s : Bytes) (start i : ℕ)
    → start ≤ i
    → i < length s
    → slice s start i ++ (at s i ∷ drop (i + 1) s) ≡ drop start s
slice-at s start i h k = rw (add-one i) (rw (← drop-at s i k) (slice-append-drop s start i h))

abbrev IsCons : {A : Type 0} → List A → Type 0
IsCons [] = ⊥
IsCons (x ∷ xs) = Unit

split_loop-IsCons :
    (fuel : ℕ) (s : Bytes) (i start depth : ℕ) → IsCons (split_loop fuel s i start depth)
unfolding split_loop
split_loop-IsCons zero s i start depth = tt
split_loop-IsCons (suc fuel) s i start depth = elim (Bool-cases (within s i)) [
  | inr out ↦ rw out tt
  | inl inside ↦ rw inside (elim (Option-cases (skipped_span s i)) [
    | inr (end, e) ↦ rw e (split_loop-IsCons fuel s end start depth)
    | inl e ↦ rw e (elim (Bool-cases ((at s i == b',') && (depth == 0))) [
      | inl cut ↦ rw cut tt
      | inr uncut ↦ rw uncut (split_loop-IsCons fuel s (i + 1) start (depth_after (at s i) depth))
    ])
  ])
]

join-cons :
    (w : Bytes) (ws : List Bytes) (sep : Bytes)
    → IsCons ws
    → join (w ∷ ws) sep ≡ w ++ (sep ++ join ws sep)
unfolding join
join-cons w [] sep h = absurd h
join-cons w (v ∷ ws) sep h = refl

join-split_loop :
    (fuel : ℕ) (s : Bytes) (i start depth : ℕ)
    → start ≤ i
    → i ≤ length s
    → join (split_loop fuel s i start depth) (codes ",") ≡ drop start s
unfolding split_loop join
join-split_loop zero s i start depth h k = refl
join-split_loop (suc fuel) s i start depth h k = elim (Bool-cases (within s i)) [
  | inr out ↦ rw out refl
  | inl inside ↦
      let lt : i < length s = ltb→lt i (length s) inside in
      rw inside (elim (Option-cases (skipped_span s i)) [
        | inr (end, e) ↦
            let (p, q) = skipped_span-le s i lt e in
            rw e (join-split_loop fuel s end start depth (omega arith) q)
        | inl e ↦ rw e (elim (Bool-cases ((at s i == b',') && (depth == 0))) [
          | inl cut ↦
              let comma : at s i ≡ b',' = ground arith in
              let d = depth_after (at s i) depth in
              let item = slice s start i in
              rw cut (
                join-cons item (split_loop fuel s (i + 1) (i + 1) d) (codes ",")
                  (split_loop-IsCons fuel s (i + 1) (i + 1) d)
                ∙ ap (λ r. item ++ (b',' ∷ r))
                    (join-split_loop fuel s (i + 1) (i + 1) d (omega arith) (omega arith))
                ∙ subst (λ c. item ++ (c ∷ drop (i + 1) s) ≡ drop start s) comma
                    (slice-at s start i h lt))
          | inr uncut ↦ rw uncut (
              join-split_loop fuel s (i + 1) start (depth_after (at s i) depth) (omega arith)
                (omega arith))
        ])
      ])
]

-- Joining the items with commas gives the text back.
pub join-split_sql_top_level_list : (s : Bytes) → join (split_sql_top_level_list s) (codes ",") ≡ s
unfolding split_sql_top_level_list
join-split_sql_top_level_list s = join-split_loop (length s) s 0 0 0 (omega arith) (omega arith)
