-- ===== src/Connection/Sorting.antt =====
-- The order in which SHOW VARIABLES gives the names (sort.Strings in `showVariables`).
use mysqlmock.Base.{
  ◌≡◌, refl, ap, ◌∙◌, ◌⊎◌, inl, inr, Bool, true, false, ◌||◌, List, [], ◌∷◌, arith, Bool-cases,
  Bytes, beq, beq_iff,
}
use mysqlmock.Connection.Variables.{text_less, insert_sorted, sort_strings}

unfoldable pub one_of : Bytes → List Bytes → Bool
one_of j [] = false
one_of j (k ∷ ks) = beq j k || one_of j ks

pub one_of-insert_sorted :
    (j k : Bytes) (ks : List Bytes) → one_of j (insert_sorted k ks) ≡ (beq j k || one_of j ks)
unfolding one_of insert_sorted
one_of-insert_sorted j k [] = refl
one_of-insert_sorted j k (x ∷ xs) = ground (arith, one_of-insert_sorted j k xs)

pub one_of-sort_strings : (j : Bytes) (ks : List Bytes) → one_of j (sort_strings ks) ≡ one_of j ks
unfolding one_of sort_strings
one_of-sort_strings j [] = refl
one_of-sort_strings j (k ∷ ks) =
    one_of-insert_sorted j k (sort_strings ks) ∙ ap (◌||◌ (beq j k)) (one_of-sort_strings j ks)

-- Each text is less than the next one.
unfoldable pub Ascending : List Bytes → Type 0
Ascending [] = Unit
Ascending (a ∷ []) = Unit
Ascending (a ∷ (b ∷ rest)) = (text_less a b ≡ true) × Ascending (b ∷ rest)

text_less-total : (a b : Bytes) → text_less a b ≡ false → beq b a ≡ false → text_less b a ≡ true
unfolding text_less beq
text_less-total [] [] h d = ground arith
text_less-total (x ∷ a) [] h d = refl
text_less-total [] (y ∷ b) h d = ground arith
text_less-total (x ∷ a) (y ∷ b) h d = ground (arith, text_less-total a b)

insert_sorted-Ascending :
    (k : Bytes) (ks : List Bytes)
    → one_of k ks ≡ false
    → Ascending ks
    → Ascending (insert_sorted k ks)
unfolding Ascending insert_sorted one_of
insert_sorted-Ascending k [] d s = tt
insert_sorted-Ascending k (j ∷ []) d s = elim (Bool-cases (text_less k j)) [
  | inl e ↦ rw e (e, tt)
  | inr e ↦ rw e (text_less-total k j e (ground (arith, beq_iff k j, beq_iff j k)), tt)
]
insert_sorted-Ascending k (j ∷ (i ∷ is)) d s =
    let later : one_of k (i ∷ is) ≡ false = ground arith in
    let rest = insert_sorted-Ascending k (i ∷ is) later s.1 in
    let different : beq j k ≡ false = ground (arith, beq_iff k j, beq_iff j k) in
    by_first (Bool-cases (text_less k j)) different rest
  where
    by_first :
        (text_less k j ≡ true) ⊎ (text_less k j ≡ false)
        → beq j k ≡ false
        → Ascending (insert_sorted k (i ∷ is))
        → Ascending (insert_sorted k (j ∷ (i ∷ is)))
    by_first (inl e) different rest = rw e (e, s)
    by_first (inr e) different rest = rw e (by_second (Bool-cases (text_less k i)) rest)
      where
        by_second :
            (text_less k i ≡ true) ⊎ (text_less k i ≡ false)
            → Ascending (insert_sorted k (i ∷ is))
            → Ascending (j ∷ insert_sorted k (i ∷ is))
        by_second (inl f) rest = rw f (text_less-total k j e different, rw f at rest)
        by_second (inr f) rest = rw f (s.0, rw f at rest)

-- No text occurs twice.
unfoldable pub Different : List Bytes → Type 0
Different [] = Unit
Different (k ∷ ks) = (one_of k ks ≡ false) × Different ks

pub sort_strings-Ascending : (ks : List Bytes) → Different ks → Ascending (sort_strings ks)
unfolding Different Ascending sort_strings
sort_strings-Ascending [] d = tt
sort_strings-Ascending (k ∷ ks) d =
    insert_sorted-Ascending k (sort_strings ks) (one_of-sort_strings k ks ∙ d.0)
      (sort_strings-Ascending ks d.1)
