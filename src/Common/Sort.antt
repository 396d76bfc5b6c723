-- ===== src/Common/Sort.antt =====
-- `Array.prototype.sort`: a stable sort by a comparison. `before x y` says that the comparator
-- puts x strictly before y.
use energlens.Common.Tests.{Bool-cases, if◌then◌else◌}
use energlens.Common.Lists.{All, filter_by}
use native.Mathlib.Omega.{arith}
use mathlib.Core.Logic.{inl, inr}
use mathlib.Core.Path.{◌≡◌, refl, ap, ◌∙◌}
use mathlib.Core.Bool.{Bool, true, false}
use mathlib.Core.List.{List, [], ◌∷◌, Perm}
use mathlib.Core.List.Perm

module _ {ℓ} {A : Type ℓ} (before : A → A → Bool) where
  -- x goes in front of the first item that it does not come after.
  abbrev pub insert_sorted : A → List A → List A
  insert_sorted x [] = x ∷ []
  insert_sorted x (y ∷ ys) =
      let rest = insert_sorted x ys in if before y x then y ∷ rest else x ∷ y ∷ ys

  abbrev pub sort : List A → List A
  sort [] = []
  sort (x ∷ xs) = insert_sorted x (sort xs)

  -- No later item comes strictly before an earlier one.
  abbrev pub IsSorted : List A → Type 0
  IsSorted [] = Unit
  IsSorted (x ∷ xs) = All (λ y. before y x ≡ false) xs × IsSorted xs

  insert_sorted-perm : (x : A) (xs : List A) → Perm (insert_sorted x xs) (x ∷ xs)
  insert_sorted-perm x [] = Perm.refl (x ∷ [])
  insert_sorted-perm x (y ∷ ys) = elim (Bool-cases (before y x)) [
    | inl e ↦ rw e (Perm.trans (Perm.cons y (insert_sorted-perm x ys)) (Perm.swap x y ys))
    | inr e ↦ rw e (Perm.refl (x ∷ y ∷ ys))
  ]

  pub sort-perm : (xs : List A) → Perm (sort xs) xs
  sort-perm [] = Perm.refl []
  sort-perm (x ∷ xs) = Perm.trans (insert_sorted-perm x (sort xs)) (Perm.cons x (sort-perm xs))

  pub All-insert_sorted {κ} :
      (P : A → Type κ) (x : A) (xs : List A) → P x → All P xs → All P (insert_sorted x xs)
  All-insert_sorted P x [] p ps = (p, tt)
  All-insert_sorted P x (y ∷ ys) p (q, qs) = elim (Bool-cases (before y x)) [
    | inl e ↦ rw e (q, All-insert_sorted P x ys p qs)
    | inr e ↦ rw e (p, (q, qs))
  ]

  pub All-sort {κ} : (P : A → Type κ) (xs : List A) → All P xs → All P (sort xs)
  All-sort P [] ps = tt
  All-sort P (x ∷ xs) (p, ps) = All-insert_sorted P x (sort xs) p (All-sort P xs ps)

  -- What a comparator has to satisfy on the values in hand.
  pub record IsOrderOn {κ} (P : A → Type κ) : Type (ℓ ⊔ κ) where
    pub asymm : (x y : A) → P x → P y → before x y ≡ true → before y x ≡ false
    pub negtrans :
        (x y z : A) → P x → P y → P z → before y x ≡ false → before z y ≡ false → before z x ≡ false

  module _ {κ} (P : A → Type κ) (order : IsOrderOn P) where
    All-not_before :
        (x y : A) (ys : List A)
        → P x
        → P y
        → All P ys
        → before y x ≡ false
        → All (λ z. before z y ≡ false) ys
        → All (λ z. before z x ≡ false) ys
    All-not_before x y [] p q qs h ps = tt
    All-not_before x y (z ∷ zs) p q (r, rs) h (g, gs) =
        (order.negtrans x y z p q r h g, All-not_before x y zs p q rs h gs)

    insert_sorted-IsSorted :
        (x : A) (xs : List A) → P x → All P xs → IsSorted xs → IsSorted (insert_sorted x xs)
    insert_sorted-IsSorted x [] p qs s = (tt, tt)
    insert_sorted-IsSorted x (y ∷ ys) p (q, qs) (low, s) = elim (Bool-cases (before y x)) [
      | inl e ↦ rw e (
        All-insert_sorted (λ z. before z y ≡ false) x ys (order.asymm y x q p e) low,
        insert_sorted-IsSorted x ys p qs s,
      )
      | inr e ↦ rw e ((e, All-not_before x y ys p q qs e low), (low, s))
    ]

    pub sort-IsSortedOn : (xs : List A) → All P xs → IsSorted (sort xs)
    sort-IsSortedOn [] ps = tt
    sort-IsSortedOn (x ∷ xs) (p, ps) =
        insert_sorted-IsSorted x (sort xs) p (All-sort P xs ps) (sort-IsSortedOn xs ps)

  -- A comparator that orders all values.
  pub record IsOrder : Type ℓ where
    pub asymm : (x y : A) → before x y ≡ true → before y x ≡ false
    pub negtrans : (x y z : A) → before y x ≡ false → before z y ≡ false → before z x ≡ false

  pub sort-IsSorted : IsOrder → (xs : List A) → IsSorted (sort xs)
  sort-IsSorted order xs =
      sort-IsSortedOn (λ x. Unit)
        (record {
          asymm = λ x y p q h. order.asymm x y h;
          negtrans = λ x y z p q r h k. order.negtrans x y z h k;
        })
        xs (every xs)
    where
      every : (xs : List A) → All (λ x. Unit {0}) xs
      every [] = tt
      every (x ∷ xs) = (tt, every xs)

  -- Items of one kind, none of which comes strictly before another, keep their order.
  module _ (kind : A → Bool)
      (tied : (x y : A) → kind x ≡ true → kind y ≡ true → before y x ≡ false) where
    filter_by-insert_sorted :
        (x : A) (xs : List A) → filter_by kind (insert_sorted x xs) ≡ filter_by kind (x ∷ xs)
    filter_by-insert_sorted x [] = refl
    filter_by-insert_sorted x (y ∷ ys) = elim (Bool-cases (before y x)) [
      | inr e ↦ rw e refl
      | inl e ↦ rw e (
          ap (λ zs. if kind y then y ∷ zs else zs) (filter_by-insert_sorted x ys)
          ∙ swapped (kind x) (kind y) refl refl e)
    ]
      where
        swapped :
            (k l : Bool)
            → kind x ≡ k
            → kind y ≡ l
            → before y x ≡ true
            → (if l
                then y ∷ (if k then x ∷ filter_by kind ys else filter_by kind ys)
                else (if k then x ∷ filter_by kind ys else filter_by kind ys))
              ≡ (if k
                  then x ∷ (if l then y ∷ filter_by kind ys else filter_by kind ys)
                  else (if l then y ∷ filter_by kind ys else filter_by kind ys))
        swapped true true h k e = let no = tied x y h k in absurd (ground arith)
        swapped true false h k e = refl
        swapped false true h k e = refl
        swapped false false h k e = refl

    pub filter_by-sort : (xs : List A) → filter_by kind (sort xs) ≡ filter_by kind xs
    filter_by-sort [] = refl
    filter_by-sort (x ∷ xs) =
        filter_by-insert_sorted x (sort xs)
        ∙ ap (λ zs. if kind x then x ∷ zs else zs) (filter_by-sort xs)
