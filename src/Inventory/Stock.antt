-- ===== src/Inventory/Stock.antt =====
-- StockService (services/inventory/src/stock/stock.service.ts): every change of stock levels,
-- of the transaction log and of reservations.
use merchandising_funnel_aut.Common.{
  ℕ, suc, Bool, true, false, not, none, some, List, [], ◌∷◌, ◌==◌, ◌&&◌, ◌||◌, if◌then◌else◌,
  pair_key, number_key, any, Option,
}
use merchandising_funnel_aut.Common.Int.{ℤ, pos, neg, leb_ℤ, ◌==ℤ◌}
use merchandising_funnel_aut.Common.Table.{find, create, upsert, upserted}
use merchandising_funnel_aut.Common.Action.{Action, pure, gets, ◌>>=◌, ◌>>◌, modify, when}
use merchandising_funnel_aut.Events.{
  GoodsReceivedEvent, GoodsReceivedLine, Condition, StockTransferredEvent, AdjustmentKind,
}
use merchandising_funnel_aut.Inventory.State.{
  Product, StockLevel, TransactionType, ReferenceType, InventoryTransaction, Event, Inventory, Env,
  increment, available, upsert_level, change_level, record_transaction, get_product_or_throw,
  publish,
}

-- The level and its transaction, in one database transaction.
unfoldable pub adjusted : Env → Product → ℕ → ℤ → ℕ → Inventory → Inventory
unfolding record_transaction
adjusted env product location_code delta reason s =
    record_transaction env product.id location_code TransactionType.adjustment delta
      ReferenceType.adjustment reason
      (record s {
        levels =
            upsert (product.id, location_code)
              (record { on_hand = delta; allocated = pos 0; unit_value = product.unit_cost })
              (increment delta (pos 0)) s.levels;
      })

unfoldable pub adjust_product :
    Env → ℕ → ℕ → ℤ → ℕ → ℕ → Product → Action Inventory (StockLevel × ℤ)
unfolding adjusted
adjust_product env sku location_code delta reason adjusted_by_id product = do
  level ← gets λ (s : Inventory).
      upserted (record { on_hand = delta; allocated = pos 0; unit_value = product.unit_cost })
        (increment delta (pos 0)) (find (product.id, location_code) s.levels)
  transaction_id ← gets λ (s : Inventory). s.next_id
  modify (adjusted env product location_code delta reason)
  when (not (delta ==ℤ pos 0)) (
      publish env (
        Event.stock_adjusted (record {
          event_id = env.uuid;
          occurred_at = env.now;
          kind = AdjustmentKind.manual;
          reference = transaction_id;
          location_code = location_code;
          description = reason;
          adjusted_by_id = adjusted_by_id;
          lines =
              record {
                sku = sku;
                product_name = product.name;
                quantity_delta = delta;
                unit_cost = product.unit_cost;
              }
              ∷ [];
        })))
  pure (level, available level)

-- FR-4.8: a manual adjustment. The answer is the new level with what is available of it.
unfoldable pub adjust : Env → ℕ → ℕ → ℤ → ℕ → ℕ → Action Inventory (StockLevel × ℤ)
unfolding adjust_product
adjust env sku location_code delta reason adjusted_by_id =
    get_product_or_throw sku >>= adjust_product env sku location_code delta reason adjusted_by_id

-- The product of a received line, made as a stub of cost 0 where its SKU is unknown.
unfoldable pub or_stub : GoodsReceivedLine → Option Product → Inventory → Product × Inventory
or_stub line (some product) s = (product, s)
or_stub line none s =
    (stub, record s { products = create line.sku stub s.products; next_id = suc s.next_id })
  where
    stub : Product
    stub = record { id = s.next_id; sku = line.sku; name = line.product_name; unit_cost = pos 0 }

unfoldable pub product_or_stub : GoodsReceivedLine → Inventory → Product × Inventory
unfolding or_stub
product_or_stub line s = or_stub line (find line.sku s.products) s

abbrev pub is_good : Condition → Bool
is_good Condition.good = true
is_good Condition.damaged = false

-- One movement of goods at one place: the level exists, its on hand changes, and it is logged.
unfoldable pub move_stock :
    Env → Product → ℕ → ℤ → TransactionType → ReferenceType → ℕ → Inventory → Inventory
unfolding upsert_level change_level record_transaction
move_stock env product location_code delta type reference_type reference_id s =
    record_transaction env product.id location_code type delta reference_type reference_id (
      change_level product.id location_code delta (pos 0)
        (upsert_level product.id location_code product.unit_cost s))

unfoldable pub receive_line : Env → GoodsReceivedEvent → GoodsReceivedLine → Inventory → Inventory
unfolding product_or_stub move_stock
receive_line env event line s =
    if not (is_good line.condition) || leb_ℤ line.quantity_received (pos 0)
    then s
    else let (product, s') = product_or_stub line s in
      move_stock env product event.received_at_location line.quantity_received
        TransactionType.receipt ReferenceType.grn event.goods_received_note_number s'

unfoldable pub receive_lines :
    Env → GoodsReceivedEvent → List GoodsReceivedLine → Inventory → Inventory
unfolding receive_line
receive_lines env event [] s = s
receive_lines env event (line ∷ lines) s =
    receive_lines env event lines (receive_line env event line s)

-- FR-4.2: goods in. Damaged and empty lines are skipped.
unfoldable pub apply_goods_received : Env → GoodsReceivedEvent → Inventory → Inventory
unfolding receive_lines
apply_goods_received env event s = receive_lines env event event.lines s

abbrev pub is_transfer : ReferenceType → Bool
is_transfer ReferenceType.transfer = true
is_transfer _ = false

abbrev pub is_return : ReferenceType → Bool
is_return ReferenceType.return = true
is_return _ = false

abbrev pub is_transfer_entry : ℕ → InventoryTransaction → Bool
is_transfer_entry transfer_number t =
    is_transfer t.reference_type && t.reference_id == transfer_number

-- The database transaction of a transfer: both levels, and both log entries.
unfoldable pub transfer_stock : Env → Product → StockTransferredEvent → Inventory → Inventory
unfolding upsert_level change_level record_transaction
transfer_stock env product event s =
    record_transaction env product.id event.to_location_code TransactionType.transfer_in
      event.quantity ReferenceType.transfer event.transfer_number
      (record_transaction env product.id event.from_location_code TransactionType.transfer_out
        (neg event.quantity) ReferenceType.transfer event.transfer_number
        (change_level product.id event.to_location_code event.quantity (pos 0) (
          change_level product.id event.from_location_code (neg event.quantity) (pos 0) (
            upsert_level product.id event.to_location_code product.unit_cost
              (upsert_level product.id event.from_location_code product.unit_cost s)))))

unfoldable pub transfer_found : Env → StockTransferredEvent → Option Product → Inventory → Inventory
unfolding transfer_stock
transfer_found env event none s = s
transfer_found env event (some product) s = transfer_stock env product event s

-- FR-4.1, D-7: at most once for a transfer number; an unknown SKU is skipped.
unfoldable pub apply_stock_transfer : Env → StockTransferredEvent → Inventory → Inventory
unfolding transfer_found
apply_stock_transfer env event s =
    if any (is_transfer_entry event.transfer_number) s.transactions
    then s
    else transfer_found env event (find event.sku s.products) s

abbrev pub is_return_entry : ℕ → ℕ → ℕ → InventoryTransaction → Bool
is_return_entry return_id product_id location_code t =
    is_return t.reference_type
    && t.reference_id == return_id
    && (t.product_id == product_id && t.location_code == location_code)

unfoldable pub return_found : Env → ℕ → ℤ → ℕ → Option Product → Inventory → Inventory
unfolding move_stock
return_found env location_code quantity return_id none s = s
return_found env location_code quantity return_id (some product) s =
    if any (is_return_entry return_id product.id location_code) s.transactions
    then s
    else move_stock env product location_code quantity TransactionType.return ReferenceType.return
        return_id s

-- FR-6.4, D-8: at most once for a return, product and location; an unknown SKU is skipped.
unfoldable pub apply_item_return : Env → ℕ → ℕ → ℤ → ℕ → Inventory → Inventory
unfolding return_found
apply_item_return env sku location_code quantity return_id s =
    return_found env location_code quantity return_id (find sku s.products) s
