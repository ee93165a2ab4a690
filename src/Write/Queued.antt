-- ===== src/Write/Queued.antt =====
-- A sequence of calls of `Write::write` (engine/tsm/write.cpp) gives the queue the blocks of plain windows.
use dtime_db.Prelude.{
  ℕ, ◌<◌, ◌^◌, ◌≡◌, refl, sym, ap, subst, ◌∙◌, List, [], ◌∷◌, ◌++◌, append_assoc, append-nil, leb,
  All, All-append, Bool-cases, inl, inr,
}
use dtime_db.Token.{Text}
use dtime_db.Maps.{same_text}
use dtime_db.SkipList.{Run, ok, fault, out_of_fuel, ◌>>=◌}
use dtime_db.Field.{OpenBlock}
use dtime_db.Field.Plain.{PlainWindow}
use dtime_db.Field.Windows.{PlainWindows, plain_set}
use dtime_db.Write.{Write, QueuedBlock}
use dtime_db.Write.Enter.{new_field, Entering, series_of, value_of, write_known, write}
use dtime_db.Write.Entered.{
  PlainFields, no_fields, type_or, plain_entering, plain_enter, plain_blocks, write_all, ArePlain,
  queued,
}
use dtime_db.Field.Laws.{IsSmall, IsFilled}
use dtime_db.Field.Blocks.{plain_write-IsGoodResult, new_plain_window-IsSmall}
use dtime_db.Write.Arrival.{entered, empty-ArePlain}

record IsEnteredAll (shard_key : ℕ → Text) (es : List Entering) (w : Write) (s : PlainFields)
    : Type 0 where
  after : Write
  result : write_all shard_key es w ≡ ok after
  deque : after.data_deque ≡ w.data_deque ++ queued (plain_blocks shard_key es s)

abbrev pub HasTime : Entering → Type 0
HasTime e = e.timestamp < 2 ^ 64

write_all-step :
    (shard_key : ℕ → Text) (e : Entering) (es : List Entering) (w w1 w2 : Write)
    → write shard_key e w ≡ ok w1
    → write_all shard_key es w1 ≡ ok w2
    → write_all shard_key (e ∷ es) w ≡ ok w2
unfolding write_all
write_all-step shard_key e es w w1 w2 h k = rw h k

queued-append : (bs cs : List OpenBlock) → queued (bs ++ cs) ≡ queued bs ++ queued cs
queued-append [] cs = refl
queued-append (b ∷ bs) cs = ap (◌∷◌ b.block) (queued-append bs cs)

entered_all :
    (shard_key : ℕ → Text) (es : List Entering) (w : Write) (s : PlainFields)
    → All HasTime es
    → ArePlain w s
    → IsEnteredAll shard_key es w s
unfolding write_all plain_blocks write
entered_all shard_key [] w s fits h = record {
  after = w;
  result = refl;
  deque = sym (append-nil w.data_deque);
}
entered_all shard_key (e ∷ es) w s fits h = elim (Bool-cases (leb 3 e.type)) [
  | inl unknown ↦
      let r = entered_all shard_key es w s fits.1 h in
      let same : write shard_key e w ≡ ok w = rw (write, unknown) refl in
      let plain : plain_blocks shard_key (e ∷ es) s ≡ plain_blocks shard_key es s =
        rw unknown refl in
      record {
        after = r.after;
        result = write_all-step shard_key e es w w r.after same r.result;
        deque = r.deque ∙ ap (λ bs. w.data_deque ++ queued bs) (sym plain);
      }
  | inr known ↦
      let d = entered shard_key e w s fits.0 h in
      let s1 = plain_enter shard_key e s in
      let r = entered_all shard_key es d.after s1 fits.1 d.plain in
      let first = (plain_entering shard_key e s).1.1.0 in
      let rest = plain_blocks shard_key es s1 in
      let called : write shard_key e w ≡ write_known shard_key e w = rw (write, known) refl in
      let plain : plain_blocks shard_key (e ∷ es) s ≡ first ++ rest = rw known refl in
      record {
        after = r.after;
        result = write_all-step shard_key e es w d.after r.after (called ∙ d.result) r.result;
        deque =
            r.deque
            ∙ ap (λ ds. ds ++ queued rest) d.deque
            ∙ append_assoc w.data_deque (queued first) (queued rest)
            ∙ ap (λ qs. w.data_deque ++ qs) (sym (queued-append first rest))
            ∙ ap (λ bs. w.data_deque ++ queued bs) (sym plain);
      }
]

abbrev pub deque_of : Run Write → Run (List QueuedBlock)
deque_of r = do w ← r; ok w.data_deque

-- A writer without fields takes any sequence of values, each into the skip list of its field, shard and series: no call
-- meets a null pointer or fails to end, and the queue has then, behind what it had, exactly the blocks of plain
-- windows of points in order. The times are 64-bit patterns.
pub write_all_lem :
    (shard_key : ℕ → Text) (es : List Entering) (w : Write)
    → All HasTime es
    → w.field_map ≡ []
    → deque_of (write_all shard_key es w)
      ≡ ok (w.data_deque ++ queued (plain_blocks shard_key es no_fields))
write_all_lem shard_key es w fits empty =
    let r = entered_all shard_key es w no_fields fits (empty-ArePlain w empty) in
    ap deque_of r.result ∙ ap ok r.deque

AreSmall : PlainFields → Type 0
AreSmall s = (name k : Text) → IsSmall (s.windows name k)

plain_set-IsSmall :
    (key : Text) (p : PlainWindow) (ps : PlainWindows)
    → IsSmall p
    → ((k : Text) → IsSmall (ps k))
    → (k : Text) → IsSmall (plain_set key p ps k)
plain_set-IsSmall key p ps h a k = elim (Bool-cases (same_text k key)) [
  | inl same ↦ rw same h
  | inr other ↦ rw other (a k)
]

AreFilled : List OpenBlock → Type 0
AreFilled bs = All (λ (b : OpenBlock). IsFilled b.block) bs

plain_enter-AreSmall :
    (shard_key : ℕ → Text) (e : Entering) (s : PlainFields)
    → HasTime e
    → AreSmall s
    → AreSmall (plain_enter shard_key e s) × AreFilled (plain_entering shard_key e s).1.1.0
unfolding AreSmall AreFilled
plain_enter-AreSmall shard_key e s fits h =
    let name = e.field_name in
    let key = shard_key e.timestamp ++ series_of e in
    let r =
      plain_write-IsGoodResult e.moment (shard_key e.timestamp) e.timestamp (value_of e)
        (series_of e) (new_field name (type_or e.type (s.types name))) (s.windows name key) fits
        (h name key) in
    (
      λ n k. elim (Bool-cases (same_text n name)) [
        | inl same ↦ rw same (
            plain_set-IsSmall key (plain_entering shard_key e s).0 (s.windows name) r.small (h name)
              k)
        | inr other ↦ rw other (h n k)
      ],
      r.blocks,
    )

plain_blocks-AreFilled :
    (shard_key : ℕ → Text) (es : List Entering) (s : PlainFields)
    → All HasTime es
    → AreSmall s
    → AreFilled (plain_blocks shard_key es s)
unfolding plain_blocks AreFilled
plain_blocks-AreFilled shard_key [] s fits h = tt
plain_blocks-AreFilled shard_key (e ∷ es) s fits h = elim (Bool-cases (leb 3 e.type)) [
  | inl unknown ↦ rw unknown (plain_blocks-AreFilled shard_key es s fits.1 h)
  | inr known ↦
      let (small, filled) = plain_enter-AreSmall shard_key e s fits.0 h in
      rw known (
        All-append (λ (b : OpenBlock). IsFilled b.block) (plain_entering shard_key e s).1.1.0
          (plain_blocks shard_key es (plain_enter shard_key e s)) filled
          (plain_blocks-AreFilled shard_key es (plain_enter shard_key e s) fits.1 small))
]

AreFilled-queued : (bs : List OpenBlock) → AreFilled bs → All IsFilled (queued bs)
unfolding AreFilled
AreFilled-queued [] h = tt
AreFilled-queued (b ∷ bs) h = (h.0, AreFilled-queued bs h.1)

-- The call returns, with a queue of which `P` holds.
pub HasQueue : (List QueuedBlock → Type 0) → Run Write → Type 0
HasQueue P (ok w) = P w.data_deque
HasQueue P fault = ⊥
HasQueue P out_of_fuel = ⊥

-- Whatever values come in whatever order to a writer without fields and with an empty queue, the calls return, and
-- every block of the queue then has its times in strict order and between its smallest and its largest time, a value
-- for each time, no more times than it counts, and counts between 1 and 100. The times are 64-bit patterns.
pub write_all-IsFilled :
    (shard_key : ℕ → Text) (es : List Entering) (w : Write)
    → All HasTime es
    → w.field_map ≡ []
    → w.data_deque ≡ []
    → HasQueue (All IsFilled) (write_all shard_key es w)
unfolding HasQueue AreSmall
write_all-IsFilled shard_key es w fits empty no_blocks =
    let r = entered_all shard_key es w no_fields fits (empty-ArePlain w empty) in
    let filled =
      plain_blocks-AreFilled shard_key es no_fields fits (λ name k. new_plain_window-IsSmall) in
    let deque : (r.after).data_deque ≡ queued (plain_blocks shard_key es no_fields) =
      r.deque ∙ ap (λ d. d ++ queued (plain_blocks shard_key es no_fields)) no_blocks in
    subst (HasQueue (All IsFilled)) (sym r.result) (
      subst (All IsFilled) (sym deque)
        (AreFilled-queued (plain_blocks shard_key es no_fields) filled))
