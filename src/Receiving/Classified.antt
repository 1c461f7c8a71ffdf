-- ===== src/Receiving/Classified.antt =====
-- What a discrepancy means, and the totals of a note by SKU
-- (services/receiving/src/goods-received-notes/discrepancy.ts, goods-received-notes.service.ts).
use merchandising_funnel_aut.Common.{
  Bool-cases, number_key, pair_key, every, All, ℕ, ◌≡◌, refl, sym, ap, ◌∙◌, ◌⊎◌, inl, inr, Bool,
  true, false, List, [], ◌∷◌, map, arith,
}
use merchandising_funnel_aut.Events.{Condition, DiscrepancyType}
use merchandising_funnel_aut.Tally.{amount_of, amounts_under, find-tally}
use merchandising_funnel_aut.Common.Int.{ℤ, ◌+ℤ◌, ◌≤ℤ◌, ◌<ℤ◌, ltb_ℤ, leb_ℤ, pos, int_laws}
use merchandising_funnel_aut.Common.Table.{find}
use merchandising_funnel_aut.Receiving.Discrepancies.{total_arrived-cons}
use merchandising_funnel_aut.Receiving.Finalizing.{
  arrived_by_sku, updated_expected_line, updated_delivery, finalized_line,
}
use merchandising_funnel_aut.Receiving.Scans.{total_arrived, discrepancy_for}
use merchandising_funnel_aut.Receiving.State.{
  GoodsReceivedNoteLine, ExpectedDeliveryStatus, ExpectedDeliveryLine, ExpectedDelivery,
}

-- The discrepancy of a line, where so much of its SKU arrived in all.
pub record IsDiscrepancy (line : GoodsReceivedNoteLine) (arrived : ℤ) (type : DiscrepancyType)
    : Type 0 where
  pub some_damaged :
      line.condition ≡ Condition.damaged
      → pos 0 <ℤ line.quantity_received
      → type ≡ DiscrepancyType.damage
  pub none_damaged :
      line.condition ≡ Condition.damaged
      → line.quantity_received ≤ℤ pos 0
      → type ≡ DiscrepancyType.nothing
  pub too_few :
      line.condition ≡ Condition.good
      → arrived <ℤ line.quantity_ordered
      → type ≡ DiscrepancyType.shortage
  pub too_many :
      line.condition ≡ Condition.good
      → line.quantity_ordered <ℤ arrived
      → type ≡ DiscrepancyType.overage
  pub all_there :
      line.condition ≡ Condition.good
      → arrived ≡ line.quantity_ordered
      → type ≡ DiscrepancyType.nothing

below : (a b : ℤ) → a <ℤ b → ltb_ℤ a b ≡ true
below a b h = ground arith

not_below : (a b : ℤ) → b ≤ℤ a → ltb_ℤ a b ≡ false
not_below a b h = ground arith

not_below_self : (a : ℤ) → ltb_ℤ a a ≡ false
not_below_self a = ground arith

discrepancy_for-IsDiscrepancy :
    (line : GoodsReceivedNoteLine) (all : List GoodsReceivedNoteLine)
    → IsDiscrepancy line (total_arrived line.sku all) (discrepancy_for line all)
unfolding discrepancy_for
discrepancy_for-IsDiscrepancy line all =
    let arrived = total_arrived line.sku all in
    record {
      some_damaged = λ c h. rw (c, below (pos 0) line.quantity_received h) refl;
      none_damaged = λ c h. rw (c, not_below (pos 0) line.quantity_received h) refl;
      too_few = λ c h. rw (c, below arrived line.quantity_ordered h) refl;
      too_many = λ c h.
          rw
            (
              c,
              not_below arrived line.quantity_ordered (omega arith),
              below line.quantity_ordered arrived h,
            )
            refl;
      all_there = λ c h. rw (c, h, not_below_self line.quantity_ordered) refl;
    }

-- A line without its classification.
abbrev pub unclassified : GoodsReceivedNoteLine → GoodsReceivedNoteLine
unclassified l = record l { discrepancy_type = DiscrepancyType.nothing }

pub finalized-unclassified :
    (all lines : List GoodsReceivedNoteLine)
    → map unclassified (map (finalized_line all) lines) ≡ map unclassified lines
finalized-unclassified all [] = refl
finalized-unclassified all (l ∷ ls) = ap (λ t. unclassified l ∷ t) (finalized-unclassified all ls)

-- The lines are classified by what arrived on all of them.
abbrev pub AreClassified : List GoodsReceivedNoteLine → List GoodsReceivedNoteLine → Type 0
AreClassified all =
    All
      (λ (l : GoodsReceivedNoteLine). IsDiscrepancy l (total_arrived l.sku all) l.discrepancy_type)

moved_discrepancy :
    (l : GoodsReceivedNoteLine) (arrived : ℤ) (type : DiscrepancyType)
    → IsDiscrepancy l arrived type
    → IsDiscrepancy (record l { discrepancy_type = type }) arrived type
moved_discrepancy l arrived type d = record {
  some_damaged = d.some_damaged;
  none_damaged = d.none_damaged;
  too_few = d.too_few;
  too_many = d.too_many;
  all_there = d.all_there;
}

pub finalized-AreClassified :
    (all lines : List GoodsReceivedNoteLine) → AreClassified all (map (finalized_line all) lines)
finalized-AreClassified all [] = tt
finalized-AreClassified all (l ∷ ls) = (
  moved_discrepancy l (total_arrived l.sku all) (discrepancy_for l all)
      (discrepancy_for-IsDiscrepancy l all),
  finalized-AreClassified all ls,
)

amounts_under-total :
    (k : ℕ) (lines : List GoodsReceivedNoteLine)
    → amounts_under k (map (λ (l : GoodsReceivedNoteLine). (l.sku, l.quantity_received)) lines)
      ≡ total_arrived k lines
amounts_under-total k [] = refl
amounts_under-total k (l ∷ ls) = rw (total_arrived-cons k l ls, ← amounts_under-total k ls) refl

arrived_by_sku-total :
    (k : ℕ) (lines : List GoodsReceivedNoteLine)
    → amount_of (find k (arrived_by_sku lines)) ≡ total_arrived k lines
arrived_by_sku-total k lines = find-tally k _ [] ∙ rw (amounts_under-total k lines) (omega int_laws)

-- A line of the expected delivery, with what arrived of its SKU.
abbrev pub with_arrived : List GoodsReceivedNoteLine → ExpectedDeliveryLine → ExpectedDeliveryLine
with_arrived arrived l = record l {
  quantity_received = l.quantity_received +ℤ total_arrived l.sku arrived;
}

pub updated-arrived :
    (arrived : List GoodsReceivedNoteLine) (lines : List ExpectedDeliveryLine)
    → map (updated_expected_line (arrived_by_sku arrived)) lines ≡ map (with_arrived arrived) lines
updated-arrived arrived [] = refl
updated-arrived arrived (l ∷ ls) =
    rw (arrived_by_sku-total l.sku arrived, updated-arrived arrived ls) refl

abbrev pub IsFull : ExpectedDeliveryLine → Type 0
IsFull l = l.quantity_ordered ≤ℤ l.quantity_received

-- A delivery is received where every line is full, and partially received where one is not.
abbrev pub HasStatus : ExpectedDelivery → Type 0
HasStatus d =
    ((d.status ≡ ExpectedDeliveryStatus.received) × All IsFull d.lines)
    ⊎ ((d.status ≡ ExpectedDeliveryStatus.partially_received) × ¬ All IsFull d.lines)

within : (a b : ℤ) → leb_ℤ a b ≡ true → a ≤ℤ b
within a b h = ground arith

not_within : (a b : ℤ) → leb_ℤ a b ≡ false → a ≤ℤ b → ⊥
not_within a b h g = ground arith

every-IsFull :
    (lines : List ExpectedDeliveryLine) (b : Bool)
    → every (λ (l : ExpectedDeliveryLine). leb_ℤ l.quantity_ordered l.quantity_received) lines ≡ b
    → (((b ≡ true) × All IsFull lines) ⊎ ((b ≡ false) × ¬ All IsFull lines))
every-IsFull [] b h = inl (sym h, tt)
every-IsFull (l ∷ ls) b h = elim (Bool-cases (leb_ℤ l.quantity_ordered l.quantity_received)) [
  | inr short ↦ inr (
    sym (rw short at h),
    λ (full, _). not_within l.quantity_ordered l.quantity_received short full,
  )
  | inl full ↦ elim (every-IsFull ls b (rw full at h)) [
    | inl (e, all) ↦ inl (e, (within l.quantity_ordered l.quantity_received full, all))
    | inr (e, none_full) ↦ inr (e, λ (_, all). none_full all)
  ]
]

pub updated_delivery-HasStatus :
    (arrived : List GoodsReceivedNoteLine) (d : ExpectedDelivery)
    → HasStatus (updated_delivery (arrived_by_sku arrived) d)
updated_delivery-HasStatus arrived d =
    let lines = map (updated_expected_line (arrived_by_sku arrived)) d.lines in
    elim (every-IsFull lines _ refl) [
      | inl (e, all) ↦ rw e (inl (refl, all))
      | inr (e, none_full) ↦ rw e (inr (refl, none_full))
    ]
