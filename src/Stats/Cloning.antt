-- ===== src/Stats/Cloning.antt =====
-- Copies of maps (`cloneCountMap`, `cloneTimingBucketMap`).
use mysqlmock.Base.{
  ◌≡◌, refl, sym, ap, ◌∙◌, none, [], ◌∷◌, ◌++◌, append-nil, append_assoc, arith, Bytes, beq_iff,
}
use mysqlmock.Map.{bytes_eq, Assoc, lookup, insert}
use mysqlmock.Map.Laws.{lookup-insert}
use mysqlmock.Map.Distinct.{OneEach}
use mysqlmock.Stats.{clone_map}

-- No key of `m` is in `out`.
unfoldable AllFresh : {V : Type 0} → Assoc Bytes V → Assoc Bytes V → Type 0
AllFresh [] out = Unit
AllFresh ((k, v) ∷ m) out = (lookup k out ≡ none) × AllFresh m out

insert-fresh :
    {V : Type 0} (k : Bytes) (v : V) (m : Assoc Bytes V)
    → lookup k m ≡ none
    → insert k v m ≡ m ++ (k, v) ∷ []
unfolding insert lookup
insert-fresh k v [] h = refl
insert-fresh k v ((j, w) ∷ m) h = ground (arith, insert-fresh k v m)

AllFresh-append :
    {V : Type 0} (k : Bytes) (v : V) (m out : Assoc Bytes V)
    → AllFresh m out
    → lookup k m ≡ none
    → AllFresh m (insert k v out)
unfolding AllFresh lookup
AllFresh-append k v [] out f h = tt
AllFresh-append k v ((j, w) ∷ m) out (f, fs) h = (
  ground (arith, lookup-insert k j v out, beq_iff j k, beq_iff k j),
  AllFresh-append k v m out fs (ground (arith)),
)

clone_map-append :
    {V : Type 0} (m out : Assoc Bytes V) → OneEach m → AllFresh m out → clone_map m out ≡ out ++ m
unfolding OneEach AllFresh clone_map
clone_map-append [] out d f = sym (append-nil out)
clone_map-append ((k, v) ∷ m) out (fresh, d) (f, fs) =
    clone_map-append m (insert k v out) d (AllFresh-append k v m out fs fresh)
    ∙ (ap (λ o. o ++ m) (insert-fresh k v out f) ∙ append_assoc out ((k, v) ∷ []) m)

AllFresh-nil : {V : Type 0} (m : Assoc Bytes V) → AllFresh m []
unfolding AllFresh lookup
AllFresh-nil [] = tt
AllFresh-nil ((k, v) ∷ m) = (refl, AllFresh-nil m)

pub clone_map-copy : {V : Type 0} (m : Assoc Bytes V) → OneEach m → clone_map m [] ≡ m
clone_map-copy m d = clone_map-append m [] d (AllFresh-nil m)
