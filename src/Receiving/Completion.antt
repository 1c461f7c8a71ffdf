-- ===== src/Receiving/Completion.antt =====
-- The completion of a goods received note (FR-3.5, FR-3.6,
-- services/receiving/src/goods-received-notes/goods-received-notes.service.ts).
use merchandising_funnel_aut.Common.{
  ==_iff, Bool-cases, Option-cases, number_key, pair_key, ℕ, ◌≡◌, refl, sym, subst, ◌⊎◌, inl, inr,
  Bool, true, false, some, List, ◌∷◌, map,
}
use merchandising_funnel_aut.Events.{GoodsReceivedEvent}
use merchandising_funnel_aut.Common.Action.{Error, Result, ok, err}
use merchandising_funnel_aut.Common.Table.{find, find-update}
use merchandising_funnel_aut.Receiving.Classified.{
  finalized-unclassified, finalized-AreClassified, updated-arrived, updated_delivery-HasStatus,
}
use merchandising_funnel_aut.Receiving.Finalizing.{
  arrived_by_sku, updated_delivery, finalized_lines, goods_received_event, write_finalized,
  finalize,
}
use merchandising_funnel_aut.Receiving.Outcomes.{
  is_scanned, IsReady, IsUnready, IsCompleted, told, Completes,
}
use merchandising_funnel_aut.Receiving.Scans.{scanned, is_draft}
use merchandising_funnel_aut.Receiving.State.{
  Env, GoodsReceivedNoteStatus, GoodsReceivedNote, Receiving,
}

abbrev completed_note : Env → GoodsReceivedNote → GoodsReceivedNote
completed_note env note = record note {
  status = GoodsReceivedNoteStatus.finalized;
  finalized_at = some env.now;
  lines = finalized_lines note.lines;
}

write_finalized-IsCompleted :
    (env : Env) (id : ℕ) (s : Receiving) (events : List GoodsReceivedEvent) (ready : IsReady id s)
    → IsCompleted env id ready.note ready.delivery
        (completed_note env ready.note)
        s
        (record (write_finalized env id ready.note ready.delivery s) { published = events })
unfolding write_finalized
write_finalized-IsCompleted env id s events ready =
    let note = ready.note in
    record {
      delivery_after = updated_delivery (arrived_by_sku note.lines) ready.delivery;
      stored = rw (find-update, (==_iff id id).1 refl, ready.stored) refl;
      finalized = refl;
      at = refl;
      header = (refl, refl, refl, refl);
      kept = finalized-unclassified note.lines note.lines;
      classified = finalized-AreClassified note.lines note.lines;
      delivered =
          rw (find-update, (==_iff note.po_number note.po_number).1 refl, ready.awaited) refl;
      counted = updated-arrived note.lines ready.delivery.lines;
      judged = updated_delivery-HasStatus note.lines ready.delivery;
      other_notes = λ j apart. rw (find-update, apart) refl;
      other_deliveries = λ j apart. rw (find-update, apart) refl;
    }

told_lines :
    (env : Env) (note : GoodsReceivedNote)
    → (goods_received_event env note).lines ≡ map told (finalized_lines note.lines)
told_lines env note = refl

write_finalized-once :
    (env env' : Env) (id : ℕ) (s : Receiving) (events : List GoodsReceivedEvent)
    (ready : IsReady id s)
    → let t : Receiving = record (write_finalized env id ready.note ready.delivery s) {
      published = events;
    } in
      finalize env' id t ≡ (err Error.bad_request, t)
unfolding write_finalized finalize
write_finalized-once env env' id s events ready =
    rw (find-update, (==_iff id id).1 refl, ready.stored) refl

pub finalize-ready :
    (env env' : Env) (id : ℕ) (s : Receiving) (ready : IsReady id s) (b : Bool)
    → env.bus_up ≡ b
    → (r : Result (Unit {0}) × Receiving) × (finalize env id s ≡ r)
      × Completes env env' id s ready r
unfolding finalize write_finalized
finalize-ready env env' id s ready true up =
    let t = write_finalized env id ready.note ready.delivery s in
    let event = goods_received_event env ready.note in
    (
      (ok tt, record t { published = event ∷ s.published }),
      rw (ready.stored, ready.draft, ready.scanned, ready.awaited, up) refl,
      record {
        after = completed_note env ready.note;
        completed = write_finalized-IsCompleted env id s (event ∷ s.published) ready;
        is_told = inl (
          up,
          refl,
          (
            event,
            refl,
            record {
              number = refl;
              order = refl;
              supplier = refl;
              location = refl;
              lines = told_lines env ready.note;
            },
          ),
        );
        once = write_finalized-once env env' id s (event ∷ s.published) ready;
      },
    )
finalize-ready env env' id s ready false down =
    let t = write_finalized env id ready.note ready.delivery s in
    (
      (err Error.unavailable, record t { published = s.published }),
      rw (ready.stored, ready.draft, ready.scanned, ready.awaited, down) refl,
      record {
        after = completed_note env ready.note;
        completed = write_finalized-IsCompleted env id s s.published ready;
        is_told = inr (down, refl, refl);
        once = write_finalized-once env env' id s s.published ready;
      },
    )

readiness : (id : ℕ) (s : Receiving) → IsUnready id s ⊎ IsReady id s
readiness id s = elim (Option-cases (find id s.notes)) [
  | inl unknown ↦ inl (inl unknown)
  | inr (note, stored) ↦ elim (Bool-cases (is_draft note.status)) [
    | inr ended ↦ inl (inr (note, stored, inl ended))
    | inl draft ↦ elim (Bool-cases (is_scanned note)) [
      | inr empty ↦ inl (inr (note, stored, inr (inl empty)))
      | inl scanned ↦ elim (Option-cases (find note.po_number s.deliveries)) [
        | inl missing ↦ inl (inr (note, stored, inr (inr missing)))
        | inr (delivery, awaited) ↦ inr (record {
          note = note;
          delivery = delivery;
          stored = stored;
          draft = draft;
          scanned = scanned;
          awaited = awaited;
        })
      ]
    ]
  ]
]

-- A guard that is passed by before one that is not.
finalize-unready :
    (env : Env) (id : ℕ) (s : Receiving)
    → IsUnready id s
    → (e : Error) × (finalize env id s ≡ (err e, s))
unfolding finalize
finalize-unready env id s (inl unknown) = (Error.not_found, rw unknown refl)
finalize-unready env id s (inr (note, stored, inl ended)) =
    (Error.bad_request, rw (stored, ended) refl)
finalize-unready env id s (inr (note, stored, inr (inl empty))) =
    elim (Bool-cases (is_draft note.status)) [
      | inr ended ↦ (Error.bad_request, rw (stored, ended) refl)
      | inl draft ↦ (Error.bad_request, rw (stored, draft, empty) refl)
    ]
finalize-unready env id s (inr (note, stored, inr (inr missing))) =
    elim (Bool-cases (is_draft note.status)) [
      | inr ended ↦ (Error.bad_request, rw (stored, ended) refl)
      | inl draft ↦ elim (Bool-cases (is_scanned note)) [
        | inr empty ↦ (Error.bad_request, rw (stored, draft, empty) refl)
        | inl scanned ↦ (Error.not_found, rw (stored, draft, scanned, missing) refl)
      ]
    ]

-- A note that is unknown, not a draft, without a scanned quantity, or for no awaited delivery, is
-- refused, and nothing changes. Any other is completed: its lines keep what was scanned and are
-- classified by what arrived of their SKUs; each line of the delivery counts what arrived of its
-- SKU, and the delivery is received exactly where every line is full, and partially received
-- otherwise; no other note or delivery changes. If the bus is up, one event is published, which
-- tells of the stored note and all its lines; if not, the call throws after these writes, without an
-- event. Either way a later call for the note is refused and changes nothing.
pub finalize_lem :
    (env env' : Env) (id : ℕ) (s : Receiving)
    → let r = finalize env id s in
      (IsUnready id s × ((e : Error) × (r ≡ (err e, s))))
      ⊎ ((ready : IsReady id s) × Completes env env' id s ready r)
finalize_lem env env' id s = elim (readiness id s) [
  | inl unready ↦ inl (unready, finalize-unready env id s unready)
  | inr ready ↦
      let (r, same, done) = finalize-ready env env' id s ready env.bus_up refl in
      inr (ready, subst (Completes env env' id s ready) (sym same) done)
]
