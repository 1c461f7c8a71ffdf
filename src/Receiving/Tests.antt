-- ===== src/Receiving/Tests.antt =====
-- Scans at concrete inputs: 10 units ordered, 8 good and 2 damaged.
use mathlib.Core.Option
use merchandising_funnel_aut.Common.{
  ◌==◌, if◌then◌else◌, number_key, pair_key, length, ℕ, ◌≡◌, refl, ◌⊎◌, true, false, none, some, [],
  ◌∷◌, map,
}
use merchandising_funnel_aut.Events.{Condition, DiscrepancyType, GoodsReceivedEvent}
use merchandising_funnel_aut.Tally.{tally}
use merchandising_funnel_aut.Common.Action.{Error, err}
use merchandising_funnel_aut.Common.Int.{◌+ℤ◌, pos}
use merchandising_funnel_aut.Common.Table.{find}
use merchandising_funnel_aut.Receiving.Completion.{finalize_lem}
use merchandising_funnel_aut.Receiving.Discrepancies.{scanned_lem}
use merchandising_funnel_aut.Receiving.Finalizing.{write_finalized, finalize}
use merchandising_funnel_aut.Receiving.Outcomes.{IsUnready, IsReady, Completes}
use merchandising_funnel_aut.Receiving.Scans.{
  total_arrived, discrepancy_for, upsert_line, reclassified, scanned,
}
use merchandising_funnel_aut.Receiving.State.{
  Env, GoodsReceivedNoteLine, GoodsReceivedNoteStatus, GoodsReceivedNote, ExpectedDeliveryStatus,
  ExpectedDelivery, Receiving, RecordScan,
}

abbrev ordered_line : GoodsReceivedNoteLine
ordered_line = record {
  sku = 70;
  product_name = 700;
  condition = Condition.good;
  quantity_ordered = pos 10;
  quantity_received = pos 8;
  discrepancy_type = DiscrepancyType.shortage;
  quarantined = false;
  notes = none;
}

abbrev damaged_scan : RecordScan
damaged_scan = record { sku = 70; condition = Condition.damaged; quantity = pos 2; notes = none }

-- Two damaged units complete the order: the good line is no longer short.
damaged_scan_lines :
    map (λ l. l.discrepancy_type) (scanned damaged_scan (ordered_line ∷ []))
    ≡ DiscrepancyType.nothing ∷ DiscrepancyType.damage ∷ []
unfolding scanned upsert_line discrepancy_for ◌+ℤ◌
damaged_scan_lines = refl

scanned_lem_example :
    ((k : ℕ)
      → total_arrived k (scanned damaged_scan (ordered_line ∷ []))
        ≡ total_arrived k (ordered_line ∷ []) +ℤ (if 70 == k then pos 2 else pos 0))
    × (reclassified 70 (scanned damaged_scan (ordered_line ∷ []))
        ≡ scanned damaged_scan (ordered_line ∷ []))
scanned_lem_example = scanned_lem damaged_scan (ordered_line ∷ [])

abbrev dock : Env
dock = record { now = 1000; uuid = 1; bus_up = true }

abbrev dock_offline : Env
dock_offline = record { now = 1000; uuid = 1; bus_up = false }

abbrev truck : GoodsReceivedNote
truck = record {
  goods_received_note_number = 1001;
  po_number = 900;
  supplier_id = 4;
  received_at_location = 1;
  status = GoodsReceivedNoteStatus.draft;
  finalized_at = none;
  lines = ordered_line ∷ [];
}

abbrev awaited : ExpectedDelivery
awaited = record {
  supplier_id = 4;
  supplier_name = 40;
  status = ExpectedDeliveryStatus.expected;
  lines =
      record { sku = 70; product_name = 700; quantity_ordered = pos 10; quantity_received = pos 0 }
      ∷ [];
}

abbrev at_dock : Receiving
at_dock = record { notes = (5, truck) ∷ []; deliveries = (900, awaited) ∷ []; published = [] }

-- The bus is down: the note is completed, the call throws, and it can not be repeated.
finalize_lem_example :
    let r = finalize dock_offline 5 at_dock in
    (IsUnready 5 at_dock × ((e : Error) × (r ≡ (err e, at_dock))))
    ⊎ ((ready : IsReady 5 at_dock) × Completes dock_offline dock 5 at_dock ready r)
finalize_lem_example = finalize_lem dock_offline dock 5 at_dock

-- Eight of ten are in, and the event is published.
finalized_at_dock :
    let r = finalize dock 5 at_dock in
    (map (λ (e : GoodsReceivedEvent). length e.lines) r.1.published ≡ 1 ∷ [])
    × (Option.map (λ (d : ExpectedDelivery). d.status) (find 900 r.1.deliveries)
        ≡ some ExpectedDeliveryStatus.partially_received)
unfolding finalize write_finalized discrepancy_for tally ◌+ℤ◌
finalized_at_dock = (refl, refl)
