-- ===== src/Receiving/Scans.antt =====
-- The scans of a note, and the classification of its lines
-- (services/receiving/src/goods-received-notes/discrepancy.ts, goods-received-notes.service.ts).
use merchandising_funnel_aut.Common.{
  ◌==◌, if◌then◌else◌, number_key, pair_key, keep, find_where, sum_of, ℕ, Bool, true, false, not,
  ◌&&◌, Option, none, some, List, [], ◌∷◌, map,
}
use merchandising_funnel_aut.Events.{Condition, DiscrepancyType}
use merchandising_funnel_aut.Common.Action.{
  Error, Action, gets, or_throw, ◌>>=◌, ◌>>◌, throw_if, modify,
}
use merchandising_funnel_aut.Common.Int.{ℤ, ◌+ℤ◌, ltb_ℤ, pos}
use merchandising_funnel_aut.Common.Table.{find, update}
use merchandising_funnel_aut.Receiving.State.{
  GoodsReceivedNoteLine, GoodsReceivedNoteStatus, Receiving, RecordScan,
}

abbrev pub is_damaged : Condition → Bool
is_damaged Condition.damaged = true
is_damaged Condition.good = false

-- All that arrived of a SKU, good and damaged.
abbrev pub total_arrived : ℕ → List GoodsReceivedNoteLine → ℤ
total_arrived sku lines = sum_of (λ l. l.quantity_received) (keep (λ l. l.sku == sku) lines)

-- FR-3.3
unfoldable pub discrepancy_for :
    GoodsReceivedNoteLine → List GoodsReceivedNoteLine → DiscrepancyType
discrepancy_for line all_lines =
    if is_damaged line.condition
    then if ltb_ℤ (pos 0) line.quantity_received
      then DiscrepancyType.damage
      else DiscrepancyType.nothing
    else if ltb_ℤ (total_arrived line.sku all_lines) line.quantity_ordered
    then DiscrepancyType.shortage
    else if ltb_ℤ line.quantity_ordered (total_arrived line.sku all_lines)
    then DiscrepancyType.overage
    else DiscrepancyType.nothing

abbrev pub same_condition : Condition → Condition → Bool
same_condition a b = elim a [
  | Condition.good ↦ not (is_damaged b)
  | Condition.damaged ↦ is_damaged b
]

abbrev pub is_line_of : RecordScan → GoodsReceivedNoteLine → Bool
is_line_of dto l = l.sku == dto.sku && same_condition l.condition dto.condition

abbrev pub or_kept : Option ℕ → Option ℕ → Option ℕ
or_kept none kept = kept
or_kept (some notes) kept = some notes

abbrev pub scanned_line : RecordScan → ℕ → GoodsReceivedNoteLine
scanned_line dto product_name = record {
  sku = dto.sku;
  product_name = product_name;
  condition = dto.condition;
  quantity_ordered = pos 0;
  quantity_received = dto.quantity;
  discrepancy_type = DiscrepancyType.nothing;
  quarantined = is_damaged dto.condition;
  notes = dto.notes;
}

-- The upsert on the key of SKU and condition.
unfoldable pub upsert_line :
    RecordScan → ℕ → List GoodsReceivedNoteLine → List GoodsReceivedNoteLine
upsert_line dto product_name [] = scanned_line dto product_name ∷ []
upsert_line dto product_name (l ∷ ls) =
    let rest = upsert_line dto product_name ls in
    if is_line_of dto l
    then record l {
      quantity_received = l.quantity_received +ℤ dto.quantity;
      notes = or_kept dto.notes l.notes;
    }
      ∷ ls
    else l ∷ rest

abbrev pub name_or : ℕ → Option GoodsReceivedNoteLine → ℕ
name_or sku none = sku
name_or sku (some l) = l.product_name

abbrev pub classified :
    ℕ → List GoodsReceivedNoteLine → GoodsReceivedNoteLine → GoodsReceivedNoteLine
classified sku lines l =
    if l.sku == sku then record l { discrepancy_type = discrepancy_for l lines } else l

-- The lines of the SKU are classified against the lines after the scan.
abbrev pub reclassified : ℕ → List GoodsReceivedNoteLine → List GoodsReceivedNoteLine
reclassified sku lines = map (classified sku lines) lines

unfoldable pub scanned : RecordScan → List GoodsReceivedNoteLine → List GoodsReceivedNoteLine
unfolding upsert_line
scanned dto lines =
    reclassified dto.sku
      (upsert_line dto (name_or dto.sku (find_where (λ l. l.sku == dto.sku) lines)) lines)

abbrev pub is_draft : GoodsReceivedNoteStatus → Bool
is_draft GoodsReceivedNoteStatus.draft = true
is_draft GoodsReceivedNoteStatus.finalized = false

unfoldable pub record_scan : ℕ → RecordScan → Action Receiving (Unit {0})
unfolding scanned
record_scan id dto = gets (λ s. find id s.notes) >>= λ found.
    or_throw found Error.not_found >>= λ note.
    throw_if (not (is_draft note.status)) Error.bad_request
    >> modify (λ s. record s {
      notes = update id (λ n. record n { lines = scanned dto note.lines }) s.notes;
    })
