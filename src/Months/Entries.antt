-- ===== src/Months/Entries.antt =====
-- The `Map` of `monthlyBuckets`: what a read of a key finds after a write, and that no key stands
-- in it twice, also after it is sorted.
use energlens.Common.{
  ◌≡◌, refl, ap, ◌∙◌, Bool, true, false, inl, inr, Option, none, some, [], ◌∷◌, map, All, Text,
  text_eq, text_lt, text_eq_iff, text_eq→eq, text_lt_trans, text_lt_total, if◌then◌else◌, or_else,
  Bool-cases, arith,
}
use mathlib.Core.Option
use mathlib.Core.Path.{subst}
use energlens.Common.Sort.{sort, insert_sorted, All-insert_sorted}
use energlens.Number.{Number}
use energlens.Months.{
  MonthBucket, Accumulator, Entries, at_bucket, new_bucket, key_before, to_bucket, bucket_at,
}

module _ {F : Type 0} where
  -- `acc.get(key)`
  unfoldable pub entry_at : Text → Entries F → Option (Accumulator F)
  entry_at key [] = none
  entry_at key ((k, b) ∷ rest) = if text_eq k key then some b else entry_at key rest

  -- Keys strictly ascend.
  abbrev pub IsAscending : Entries F → Type 0
  IsAscending [] = Unit
  IsAscending (e ∷ es) = All (λ f. text_lt e.0 f.0 ≡ true) es × IsAscending es

  -- No key stands twice.
  abbrev pub IsDistinct : Entries F → Type 0
  IsDistinct [] = Unit
  IsDistinct (e ∷ es) = (entry_at e.0 es ≡ none) × IsDistinct es

  abbrev pub KeysAre {κ} : (Text → Type κ) → Entries F → Type κ
  KeysAre P = All (λ e. P e.0)

module _ {F : Type 0} ⦃n : Number F⦄ where
  pub entry_at-at_bucket :
      (key k : Text) (change : Accumulator F → Accumulator F) (es : Entries F)
      → entry_at key (at_bucket k change es) ≡ (
          if text_eq k key
          then some (change (or_else (entry_at key es) new_bucket))
          else entry_at key es)
  unfolding entry_at at_bucket
  entry_at-at_bucket key k change [] = refl
  entry_at-at_bucket key k change ((j, b) ∷ es) = ground (
    arith,
    text_eq_iff k key,
    text_eq_iff j k,
    text_eq_iff j key,
    entry_at-at_bucket key k change es,
  )

  pub at_bucket-IsDistinct :
      (k : Text) (change : Accumulator F → Accumulator F) (es : Entries F)
      → IsDistinct es
      → IsDistinct (at_bucket k change es)
  unfolding at_bucket entry_at
  at_bucket-IsDistinct k change [] d = (refl, tt)
  at_bucket-IsDistinct k change ((j, b) ∷ es) (fresh, d) = elim (Bool-cases (text_eq j k)) [
    | inl e ↦ rw e (fresh, d)
    | inr e ↦
        rw e
          (rw (entry_at-at_bucket j k change es, other e) fresh, at_bucket-IsDistinct k change es d)
  ]
    where
      other : text_eq j k ≡ false → text_eq k j ≡ false
      other e = ground (arith, text_eq_iff j k, text_eq_iff k j)

  pub at_bucket-KeysAre {κ} :
      (P : Text → Type κ) (k : Text) (change : Accumulator F → Accumulator F) (es : Entries F)
      → P k
      → KeysAre P es
      → KeysAre P (at_bucket k change es)
  unfolding at_bucket
  at_bucket-KeysAre P k change [] p ps = (p, tt)
  at_bucket-KeysAre P k change ((j, b) ∷ es) p (q, qs) = elim (Bool-cases (text_eq j k)) [
    | inl e ↦ rw e (q, qs)
    | inr e ↦ rw e (q, at_bucket-KeysAre P k change es p qs)
  ]

module _ {F : Type 0} where
  fresh_keys :
      (k : Text) (es : Entries F) → entry_at k es ≡ none → KeysAre (λ j. text_eq j k ≡ false) es
  unfolding entry_at
  fresh_keys k [] e = tt
  fresh_keys k ((j, b) ∷ es) e = elim (Bool-cases (text_eq j k)) [
    | inl t ↦ absurd (ground arith)
    | inr t ↦ (t, fresh_keys k es (rw t at e))
  ]

  after_all :
      (k j : Text) (es : Entries F)
      → text_lt k j ≡ true
      → All (λ f. text_lt j f.0 ≡ true) es
      → All (λ f. text_lt k f.0 ≡ true) es
  after_all k j [] h ps = tt
  after_all k j ((i, b) ∷ es) h (p, ps) = (text_lt_trans k j i h p, after_all k j es h ps)

  insert_sorted-IsAscending :
      (e : Text × Accumulator F) (es : Entries F)
      → KeysAre (λ j. text_eq j e.0 ≡ false) es
      → IsAscending es
      → IsAscending (insert_sorted key_before e es)
  insert_sorted-IsAscending e [] fresh a = (tt, tt)
  insert_sorted-IsAscending (k, b) ((j, c) ∷ es) (ne, fresh) (low, a) =
      elim (Bool-cases (text_lt j k)) [
        | inl t ↦ rw t (
          All-insert_sorted key_before (λ f. text_lt j f.0 ≡ true) (k, b) es t low,
          insert_sorted-IsAscending (k, b) es fresh a,
        )
        | inr t ↦
            let first : text_lt k j ≡ true = flipped t in
            rw t ((first, after_all k j es first low), (low, a))
      ]
    where
      flipped : text_lt j k ≡ false → text_lt k j ≡ true
      flipped t = elim (Bool-cases (text_lt k j)) [
        | inl u ↦ u
        | inr u ↦ absurd (ground (arith, text_eq_iff j k, text_lt_total j k t u))
      ]

  -- What is not a key before is none after the sort.
  pub KeysAre-sort {κ} :
      (P : Text → Type κ) (es : Entries F) → KeysAre P es → KeysAre P (sort key_before es)
  KeysAre-sort P [] ps = tt
  KeysAre-sort P (e ∷ es) (p, ps) =
      All-insert_sorted key_before (λ f. P f.0) e (sort key_before es) p (KeysAre-sort P es ps)

  -- Sorting entries with distinct keys puts them in strictly ascending order.
  pub sort-IsAscending : (es : Entries F) → IsDistinct es → IsAscending (sort key_before es)
  sort-IsAscending [] d = tt
  sort-IsAscending ((k, b) ∷ es) (fresh, d) =
      insert_sorted-IsAscending (k, b) (sort key_before es)
        (KeysAre-sort (λ j. text_eq j k ≡ false) es (fresh_keys k es fresh)) (sort-IsAscending es d)

module _ {F : Type 0} ⦃n : Number F⦄ where
  pub skip-eq :
      (test : Bool) (b : MonthBucket F) (o : Option (MonthBucket F))
      → test ≡ false
      → (elim o [ some later ↦ some later | none ↦ if test then some b else none ]) ≡ o
  skip-eq test b none e = rw e
  skip-eq test b (some c) e = refl

  bucket_at_fresh :
      (k : Text) (es : Entries F)
      → KeysAre (λ j. text_eq j k ≡ false) es
      → bucket_at k (map to_bucket es) ≡ none
  unfolding bucket_at to_bucket
  bucket_at_fresh k [] ps = refl
  bucket_at_fresh k ((j, b) ∷ es) (p, ps) = rw (bucket_at_fresh k es ps, p) refl

  bucket_at-insert_sorted :
      (k j : Text) (b : Accumulator F) (es : Entries F)
      → KeysAre (λ i. text_eq i j ≡ false) es
      → bucket_at k (map to_bucket (insert_sorted key_before (j, b) es))
        ≡ (if text_eq j k then some (to_bucket (j, b)) else bucket_at k (map to_bucket es))
  unfolding bucket_at to_bucket
  bucket_at-insert_sorted k j b [] fresh = refl
  bucket_at-insert_sorted k j b ((i, c) ∷ es) (ne, fresh) = elim (Bool-cases (text_lt i j)) [
    | inl t ↦
        rw (t, bucket_at-insert_sorted k j b es fresh)
          (elim (Bool-cases (text_eq j k)) [ inl u ↦ rw u | inr u ↦ rw u ])
    | inr t ↦ rw t (elim (Bool-cases (text_eq j k)) [
      | inl u ↦
          let keys =
            subst (λ t. KeysAre (λ i. text_eq i t ≡ false) ((i, c) ∷ es)) (text_eq→eq j k u)
              (ne, fresh) in
          let absent = bucket_at_fresh k ((i, c) ∷ es) keys in rw (absent, u)
      | inr u ↦
          rw u
            (skip-eq (text_eq j k) (to_bucket (j, b)) (bucket_at k (map to_bucket ((i, c) ∷ es))) u)
    ])
  ]

  -- A read of the sorted buckets finds the entry of that key.
  pub bucket_at-sort :
      (k : Text) (es : Entries F)
      → IsDistinct es
      → bucket_at k (map to_bucket (sort key_before es))
        ≡ Option.map (λ b. to_bucket (k, b)) (entry_at k es)
  unfolding entry_at bucket_at
  bucket_at-sort k [] d = refl
  bucket_at-sort k ((j, b) ∷ es) (fresh, d) =
      bucket_at-insert_sorted k j b (sort key_before es)
        (KeysAre-sort (λ i. text_eq i j ≡ false) es (fresh_keys j es fresh))
      ∙ rw (bucket_at-sort k es d) (elim (Bool-cases (text_eq j k)) [
        | inl u ↦ rw u (ap (λ t. some (to_bucket (t, b))) (text_eq→eq j k u))
        | inr u ↦ rw u
      ])
