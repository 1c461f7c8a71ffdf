-- ===== src/Receiving/Discrepancies.antt =====
-- A scan of a goods received note (services/receiving/src/goods-received-notes/discrepancy.ts,
-- services/receiving/src/goods-received-notes/goods-received-notes.service.ts).
use merchandising_funnel_aut.Common.{
  ◌==◌, if◌then◌else◌, ==_iff, Bool-cases, ℕ, ◌≡◌, refl, ◌∙◌, inl, inr, Bool, true, ◌&&◌, List, [],
  ◌∷◌, map, arith,
}
use merchandising_funnel_aut.Common.Int.{◌+ℤ◌, pos, int_laws}
use merchandising_funnel_aut.Receiving.Scans.{
  total_arrived, discrepancy_for, same_condition, or_kept, scanned_line, upsert_line, classified,
  reclassified, scanned,
}
use merchandising_funnel_aut.Receiving.State.{GoodsReceivedNoteLine, RecordScan}

pub total_arrived-cons :
    (k : ℕ) (l : GoodsReceivedNoteLine) (ls : List GoodsReceivedNoteLine)
    → total_arrived k (l ∷ ls)
      ≡ (if l.sku == k then l.quantity_received +ℤ total_arrived k ls else total_arrived k ls)
total_arrived-cons k l ls = ground arith

classified-total :
    (k sku : ℕ) (all ls : List GoodsReceivedNoteLine)
    → total_arrived k (map (classified sku all) ls) ≡ total_arrived k ls
classified-total k sku all [] = refl
classified-total k sku all (l ∷ ls) = elim (Bool-cases (l.sku == sku)) [
  | inl same ↦
      rw (same, total_arrived-cons k l ls, ← classified-total k sku all ls)
        (total_arrived-cons k (record l { discrepancy_type = discrepancy_for l all }) _)
  | inr other ↦
      rw (other, total_arrived-cons k l ls, ← classified-total k sku all ls)
        (total_arrived-cons k l _)
]

and-left : (a b : Bool) → a && b ≡ true → a ≡ true
and-left a b h = ground arith

upsert_line-total :
    (k : ℕ) (dto : RecordScan) (product_name : ℕ) (ls : List GoodsReceivedNoteLine)
    → total_arrived k (upsert_line dto product_name ls)
      ≡ total_arrived k ls +ℤ (if dto.sku == k then dto.quantity else pos 0)
unfolding upsert_line
upsert_line-total k dto product_name [] =
    total_arrived-cons k (scanned_line dto product_name) [] ∙ grind int_laws
upsert_line-total k dto product_name (l ∷ ls) =
    elim (Bool-cases (l.sku == dto.sku && same_condition l.condition dto.condition)) [
      | inl here ↦
          let same : l.sku ≡ dto.sku = (==_iff l.sku dto.sku).0 (and-left _ _ here) in
          rw (here, total_arrived-cons k l ls, ← same)
            (total_arrived-cons k
                (record l {
                  quantity_received = l.quantity_received +ℤ dto.quantity;
                  notes = or_kept dto.notes l.notes;
                })
                ls
              ∙ elim (Bool-cases (l.sku == k)) [
                | inl mine ↦ rw mine (omega int_laws)
                | inr other ↦ rw other (omega int_laws)
              ])
      | inr there ↦
          rw (there, total_arrived-cons k l ls)
            (total_arrived-cons k l _ ∙ elim (Bool-cases (l.sku == k)) [
              | inl mine ↦ rw (mine, upsert_line-total k dto product_name ls) (omega int_laws)
              | inr other ↦ rw (other, upsert_line-total k dto product_name ls)
            ])
    ]

scanned-total :
    (k : ℕ) (dto : RecordScan) (ls : List GoodsReceivedNoteLine)
    → total_arrived k (scanned dto ls)
      ≡ total_arrived k ls +ℤ (if dto.sku == k then dto.quantity else pos 0)
unfolding scanned
scanned-total k dto ls = classified-total k dto.sku _ _ ∙ upsert_line-total k dto _ ls

-- A classification reads the lines only for what arrived of each SKU.
classified_again :
    (sku : ℕ) (all all' : List GoodsReceivedNoteLine) (l : GoodsReceivedNoteLine)
    → ((k : ℕ) → total_arrived k all' ≡ total_arrived k all)
    → classified sku all' (classified sku all l) ≡ classified sku all l
unfolding discrepancy_for
classified_again sku all all' l same = elim (Bool-cases (l.sku == sku)) [
  | inl mine ↦ rw (mine, mine, same l.sku)
  | inr other ↦ rw (other, other)
]

map-classified_again :
    (sku : ℕ) (all all' ls : List GoodsReceivedNoteLine)
    → ((k : ℕ) → total_arrived k all' ≡ total_arrived k all)
    → map (classified sku all') (map (classified sku all) ls) ≡ map (classified sku all) ls
map-classified_again sku all all' [] same = refl
map-classified_again sku all all' (l ∷ ls) same =
    rw (classified_again sku all all' l same, map-classified_again sku all all' ls same)

-- A scan adds its quantity to what arrived of its SKU and of no other; and the lines of the SKU are
-- left classified by the totals after the scan, so that classifying them again changes nothing.
pub scanned_lem :
    (dto : RecordScan) (lines : List GoodsReceivedNoteLine)
    → ((k : ℕ)
        → total_arrived k (scanned dto lines)
          ≡ total_arrived k lines +ℤ (if dto.sku == k then dto.quantity else pos 0))
      × (reclassified dto.sku (scanned dto lines) ≡ scanned dto lines)
unfolding scanned
scanned_lem dto lines = (
  λ k. scanned-total k dto lines,
  map-classified_again dto.sku _ _ _ (λ k. classified-total k dto.sku _ _),
)
