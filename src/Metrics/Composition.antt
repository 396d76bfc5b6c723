-- ===== src/Metrics/Composition.antt =====
-- `composition`: the shares of energy, fixed charges and taxes in a total.
use energlens.Common.{
  ◌≡◌, refl, Bool, ◌||◌, ◌&&◌, not, Option, none, some, List, [], ◌∷◌, if◌then◌else◌, ◌==◌, or_else,
  is_some, length, filter_by, any, arith, length-filter_by-le,
}
use energlens.Number.{Number}
use energlens.Bills.{round}
use energlens.Metrics.Windows.{sum_by}

pub record Item (F : Type 0) : Type 0 where
  pub energy : Option F
  pub fixed : Option F
  pub taxes : Option F
  pub total : F

pub record Shares (F : Type 0) : Type 0 where
  pub energy : Option F
  pub fixed : Option F
  pub taxes : Option F

pub record Composition (F : Type 0) : Type 0 where
  pub energy : Option F
  pub fixed : Option F
  pub taxes : Option F
  pub total : F
  pub shares : Shares F
  pub unexplained : Option F

module _ {F : Type 0} ⦃n : Number F⦄ where
  open n use {lit, sub, mul, div, eq}

  -- All or nothing: null unless every item has the part, and on no items.
  unfoldable pub sum_part : (Item F → Option F) → List (Item F) → Option F
  sum_part pick items =
      let known = filter_by (λ i. is_some (pick i)) items in
      if not (length known == length items) || (length items == 0)
      then none
      else some (round (sum_by (λ i. or_else (pick i) (lit 0 0)) known) 2)

  unfoldable pub share_of : F → Option F → Option F
  share_of total none = none
  share_of total (some part) =
      if eq total (lit 0 0) then none else some (mul (div part total) (lit 100 0))

  unfoldable pub composition : List (Item F) → Composition F
  composition items =
      let total = round (sum_by (λ i. i.total) items) 2 in
      let energy = sum_part (λ i. i.energy) items in
      let fixed = sum_part (λ i. i.fixed) items in
      let taxes = sum_part (λ i. i.taxes) items in
      record {
        energy = energy;
        fixed = fixed;
        taxes = taxes;
        total = total;
        shares = record {
          energy = share_of total energy;
          fixed = share_of total fixed;
          taxes = share_of total taxes;
        };
        unexplained =
            if any (λ p. not (is_some p)) (energy ∷ fixed ∷ taxes ∷ [])
            then none
            else some (
                round
                  (sub (sub (sub total (or_else energy (lit 0 0))) (or_else fixed (lit 0 0)))
                    (or_else taxes (lit 0 0)))
                  2);
      }

-- Some item lacks the part.
abbrev pub lacks : {F : Type 0} → (Item F → Option F) → List (Item F) → Bool
lacks pick items = any (λ i. not (is_some (pick i))) items

known-lt :
    {F : Type 0} (pick : Item F → Option F) (items : List (Item F))
    → (length (filter_by (λ i. is_some (pick i)) items) == length items) ≡ not (lacks pick items)
known-lt pick [] = refl
known-lt pick (i ∷ items) =
    ground (arith, known-lt pick items, length-filter_by-le (λ i. is_some (pick i)) items)

module _ {F : Type 0} ⦃n : Number F⦄ where
  sum_part-null :
      (pick : Item F → Option F) (items : List (Item F))
      → is_some (sum_part pick items) ≡ not (lacks pick items || (length items == 0))
  unfolding sum_part
  sum_part-null pick items = rw (known-lt pick items) (ground arith)

  -- A component of the period is known exactly if every item carries it and there is an item; and the
  -- unexplained rest is known exactly if all three components are.
  pub composition-null :
      (items : List (Item F))
      → (is_some (composition items).energy
          ≡ not (lacks (λ i. i.energy) items || (length items == 0)))
        × (is_some (composition items).fixed
            ≡ not (lacks (λ i. i.fixed) items || (length items == 0)))
        × (is_some (composition items).taxes
            ≡ not (lacks (λ i. i.taxes) items || (length items == 0)))
        × (is_some (composition items).unexplained ≡ (
            is_some (composition items).energy
            && is_some (composition items).fixed
            && is_some (composition items).taxes))
  unfolding composition
  composition-null items = (
    sum_part-null (λ i. i.energy) items,
    sum_part-null (λ i. i.fixed) items,
    sum_part-null (λ i. i.taxes) items,
    ground arith,
  )
