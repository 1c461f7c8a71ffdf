-- ===== src/Receiving/Finalizing.antt =====
-- The completion of a note (services/receiving/src/goods-received-notes/goods-received-notes.service.ts).
use merchandising_funnel_aut.Common.{
  if◌then◌else◌, number_key, pair_key, every, any, ℕ, not, some, List, [], ◌∷◌, map,
}
use merchandising_funnel_aut.Events.{GoodsReceivedLine, GoodsReceivedEvent}
use merchandising_funnel_aut.Tally.{tally, amount_of}
use merchandising_funnel_aut.Common.Action.{
  Error, Action, gets, or_throw, ◌>>=◌, ◌>>◌, throw_if, modify, ok, err,
}
use merchandising_funnel_aut.Common.Int.{ℤ, ◌+ℤ◌, ltb_ℤ, leb_ℤ, pos}
use merchandising_funnel_aut.Common.Table.{Table, find, update}
use merchandising_funnel_aut.Receiving.Scans.{discrepancy_for, is_draft}
use merchandising_funnel_aut.Receiving.State.{
  Env, GoodsReceivedNoteLine, GoodsReceivedNoteStatus, GoodsReceivedNote, ExpectedDeliveryStatus,
  ExpectedDeliveryLine, ExpectedDelivery, Receiving,
}

abbrev pub arrived_by_sku : List GoodsReceivedNoteLine → Table ℕ ℤ
arrived_by_sku lines = tally [] (map (λ l. (l.sku, l.quantity_received)) lines)

abbrev pub updated_expected_line : Table ℕ ℤ → ExpectedDeliveryLine → ExpectedDeliveryLine
updated_expected_line arrived l = record l {
  quantity_received = l.quantity_received +ℤ amount_of (find l.sku arrived);
}

abbrev pub updated_delivery : Table ℕ ℤ → ExpectedDelivery → ExpectedDelivery
updated_delivery arrived d =
    let lines = map (updated_expected_line arrived) d.lines in
    record d {
      lines = lines;
      status =
          if every (λ l. leb_ℤ l.quantity_ordered l.quantity_received) lines
          then ExpectedDeliveryStatus.received
          else ExpectedDeliveryStatus.partially_received;
    }

abbrev pub finalized_line :
    List GoodsReceivedNoteLine → GoodsReceivedNoteLine → GoodsReceivedNoteLine
finalized_line lines l = record l { discrepancy_type = discrepancy_for l lines }

abbrev pub finalized_lines : List GoodsReceivedNoteLine → List GoodsReceivedNoteLine
finalized_lines lines = map (finalized_line lines) lines

abbrev pub received_line : GoodsReceivedNoteLine → GoodsReceivedLine
received_line l = record {
  sku = l.sku;
  product_name = l.product_name;
  quantity_ordered = l.quantity_ordered;
  quantity_received = l.quantity_received;
  condition = l.condition;
  discrepancy_type = l.discrepancy_type;
}

abbrev pub goods_received_event : Env → GoodsReceivedNote → GoodsReceivedEvent
goods_received_event env note = record {
  event_id = env.uuid;
  occurred_at = env.now;
  goods_received_note_number = note.goods_received_note_number;
  po_number = note.po_number;
  supplier_id = note.supplier_id;
  received_at_location = note.received_at_location;
  lines = map received_line (finalized_lines note.lines);
}

abbrev pub publish : Env → GoodsReceivedEvent → Action Receiving (Unit {0})
publish env event s =
    if env.bus_up
    then (ok tt, record s { published = event ∷ s.published })
    else (err Error.unavailable, s)

-- The writes of the transaction.
unfoldable pub write_finalized :
    Env → ℕ → GoodsReceivedNote → ExpectedDelivery → Receiving → Receiving
write_finalized env id note delivery s = record s {
  notes =
      update id
        (λ n. record n {
          status = GoodsReceivedNoteStatus.finalized;
          finalized_at = some env.now;
          lines = finalized_lines note.lines;
        })
        s.notes;
  deliveries =
      update note.po_number (λ _. updated_delivery (arrived_by_sku note.lines) delivery)
        s.deliveries;
}

unfoldable pub finalize : Env → ℕ → Action Receiving (Unit {0})
unfolding write_finalized
finalize env id = gets (λ s. find id s.notes) >>= λ found.
    or_throw found Error.not_found >>= λ note.
    throw_if (not (is_draft note.status)) Error.bad_request
    >> throw_if (not (any (λ l. ltb_ℤ (pos 0) l.quantity_received) note.lines)) Error.bad_request
    >> gets (λ s. find note.po_number s.deliveries)
    >>= λ expected. or_throw expected Error.not_found >>= λ delivery.
        modify (write_finalized env id note delivery) >> publish env (goods_received_event env note)
