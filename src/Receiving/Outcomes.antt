-- ===== src/Receiving/Outcomes.antt =====
-- The outcomes of an attempt to complete a goods received note
-- (services/receiving/src/goods-received-notes/goods-received-notes.service.ts).
use merchandising_funnel_aut.Common.{
  ◌==◌, number_key, pair_key, any, ℕ, ◌≡◌, ◌⊎◌, Bool, true, false, none, some, ◌∷◌, map,
}
use merchandising_funnel_aut.Events.{GoodsReceivedLine, GoodsReceivedEvent}
use merchandising_funnel_aut.Common.Action.{Error, Result, ok, err}
use merchandising_funnel_aut.Common.Int.{ltb_ℤ, pos}
use merchandising_funnel_aut.Common.Table.{find}
use merchandising_funnel_aut.Receiving.Classified.{
  unclassified, AreClassified, with_arrived, HasStatus,
}
use merchandising_funnel_aut.Receiving.Finalizing.{finalize}
use merchandising_funnel_aut.Receiving.Scans.{is_draft}
use merchandising_funnel_aut.Receiving.State.{
  Env, GoodsReceivedNoteLine, GoodsReceivedNoteStatus, GoodsReceivedNote, ExpectedDelivery,
  Receiving,
}

abbrev pub is_scanned : GoodsReceivedNote → Bool
is_scanned note = any (λ (l : GoodsReceivedNoteLine). ltb_ℤ (pos 0) l.quantity_received) note.lines

-- A draft with something scanned on it, whose delivery is known.
pub record IsReady (id : ℕ) (s : Receiving) : Type 0 where
  pub note : GoodsReceivedNote
  pub delivery : ExpectedDelivery
  pub stored : find id s.notes ≡ some note
  pub draft : is_draft note.status ≡ true
  pub scanned : is_scanned note ≡ true
  pub awaited : find note.po_number s.deliveries ≡ some delivery

-- Why a note can not be completed.
abbrev pub IsUnready : ℕ → Receiving → Type 0
IsUnready id s =
    (find id s.notes ≡ none)
    ⊎ ((note : GoodsReceivedNote) × (find id s.notes ≡ some note)
        × ((is_draft note.status ≡ false)
            ⊎ ((is_scanned note ≡ false) ⊎ (find note.po_number s.deliveries ≡ none))))

-- The tables after a completion, described by what the note and the delivery were before it; `after`
-- is the note as it is stored then.
pub record IsCompleted (env : Env) (id : ℕ) (note : GoodsReceivedNote) (delivery : ExpectedDelivery)
    (after : GoodsReceivedNote) (s t : Receiving) : Type 0 where
  pub delivery_after : ExpectedDelivery
  pub stored : find id t.notes ≡ some after
  pub finalized : after.status ≡ GoodsReceivedNoteStatus.finalized
  pub at : after.finalized_at ≡ some env.now
  pub header :
      (after.goods_received_note_number ≡ note.goods_received_note_number)
      × (after.po_number ≡ note.po_number)
      × (after.supplier_id ≡ note.supplier_id)
      × (after.received_at_location ≡ note.received_at_location)
  pub kept : map unclassified after.lines ≡ map unclassified note.lines
  pub classified : AreClassified note.lines after.lines
  pub delivered : find note.po_number t.deliveries ≡ some delivery_after
  pub counted : delivery_after.lines ≡ map (with_arrived note.lines) delivery.lines
  pub judged : HasStatus delivery_after
  pub other_notes : (j : ℕ) → (id == j) ≡ false → find j t.notes ≡ find j s.notes
  pub other_deliveries :
      (j : ℕ) → (note.po_number == j) ≡ false → find j t.deliveries ≡ find j s.deliveries

-- What is told of a line.
abbrev pub told : GoodsReceivedNoteLine → GoodsReceivedLine
told l = record {
  sku = l.sku;
  product_name = l.product_name;
  quantity_ordered = l.quantity_ordered;
  quantity_received = l.quantity_received;
  condition = l.condition;
  discrepancy_type = l.discrepancy_type;
}

-- An event that tells of a note and of all its lines as they are stored.
pub record Tells (note : GoodsReceivedNote) (event : GoodsReceivedEvent) : Type 0 where
  pub number : event.goods_received_note_number ≡ note.goods_received_note_number
  pub order : event.po_number ≡ note.po_number
  pub supplier : event.supplier_id ≡ note.supplier_id
  pub location : event.received_at_location ≡ note.received_at_location
  pub lines : event.lines ≡ map told note.lines

-- Either the bus takes the event, or the call throws and no event is published.
abbrev pub IsTold : Env → GoodsReceivedNote → Receiving → Result (Unit {0}) × Receiving → Type 0
IsTold env note s r =
    ((env.bus_up ≡ true)
      × (r.0 ≡ ok tt)
      × ((event : GoodsReceivedEvent) × (r.1.published ≡ event ∷ s.published) × Tells note event))
    ⊎ ((env.bus_up ≡ false) × (r.0 ≡ err Error.unavailable) × (r.1.published ≡ s.published))

-- A call that completes a note.
pub record Completes (env env' : Env) (id : ℕ) (s : Receiving) (ready : IsReady id s)
    (r : Result (Unit {0}) × Receiving) : Type 0 where
  pub after : GoodsReceivedNote
  pub completed : IsCompleted env id ready.note ready.delivery after s r.1
  pub is_told : IsTold env after s r
  pub once : finalize env' id r.1 ≡ (err Error.bad_request, r.1)
