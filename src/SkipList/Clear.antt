-- ===== src/SkipList/Clear.antt =====
-- `cle` on a skip list in shape: which nodes it leaves.
use dtime_db.Prelude.{
  ℕ, zero, suc, ◌+◌, ◌<◌, ◌≡◌, refl, sym, ap, subst, ◌∙◌, false, none, some, List, [], ◌==◌, ltb,
  if◌then◌else◌, length-replicate, replicate, arith,
}
use dtime_db.SkipList.{
  Pointer, Node, Heap, SkipList, ok, max_level, store, set_next, next_of, clear_levels, free_nodes,
  cle,
}
use dtime_db.SkipList.Cells.{
  Entry, IsCell, lead, with_next, set_next-cell, IsCell-with_next, IsCell-agree, next_of-cell,
}
use dtime_db.SkipList.Links.{IsFrame}
use dtime_db.SkipList.Shape.{IsSkipList}
use dtime_db.SkipList.Insert.{get-replicate}

-- The pointers of the head, null below `i`.
abbrev clear_next : (ℕ → Pointer) → ℕ → ℕ → Pointer
clear_next f i j = if ltb j i then none else f j

clear_levels-step :
    (n i head : ℕ) (cells cells1 : Heap)
    → set_next cells head i none ≡ ok cells1
    → clear_levels (suc n) i head cells ≡ clear_levels n (suc i) head cells1
unfolding clear_levels
clear_levels-step n i head cells cells1 h = rw h refl

module _ (e : Entry) (f : ℕ → Pointer) where
  record IsCleared (n i : ℕ) (cells : Heap) : Type 0 where
    cleared : Heap
    result : clear_levels n i e.addr cells ≡ ok cleared
    cell : IsCell cleared e (clear_next f e.level)
    frame : IsFrame cells cleared e.addr

  IsCleared-from :
      (n i : ℕ) (cells : Heap)
      → IsCell cells e (clear_next f i)
      → n + i ≡ e.level
      → IsCleared n i cells
  unfolding clear_levels
  IsCleared-from zero i cells w level = record {
    cleared = cells;
    result = refl;
    cell = subst (λ k. IsCell cells e (clear_next f k)) (omega (arith, level)) w;
    frame = λ a n. refl;
  }
  IsCleared-from (suc n) i cells w level =
      let l : i < e.level = omega (arith, level) in
      let cells1 = with_next cells e (clear_next f i) w i l none in
      let w1 =
        IsCell-with_next cells e (clear_next f i) w i l none (clear_next f (suc i)) (ground arith)
          (λ j n. ground arith) in
      let r = IsCleared-from n (suc i) cells1 w1 (omega (arith, level)) in
      record {
        cleared = r.cleared;
        result =
            clear_levels-step n i e.addr cells cells1
              (set_next-cell cells e (clear_next f i) w i l none)
            ∙ r.result;
        cell = r.cell;
        frame = λ a n. r.frame a n ∙ rw n refl;
      }

-- The list after a call of `cle`: no entry is left, and the heap is as it was but at the head.
pub record IsCle (l : SkipList) (b : Entry) : Type 0 where
  pub after : SkipList
  pub result : cle l ≡ ok after
  pub shape : IsSkipList after b []
  pub kept : IsFrame l.cells after.cells l.head

cle-step :
    (l : SkipList) (cells : Heap) (n : Node)
    → clear_levels max_level 0 l.head l.cells ≡ ok cells
    → next_of cells l.head 0 ≡ ok none
    → cells l.head ≡ some n
    → cle l
      ≡ ok (record l {
        cells = store cells l.head (some (record n { nexts = replicate max_level none }));
        bottom_level_node_count = 0;
      })
unfolding cle free_nodes
cle-step l cells n h k m = rw h (rw k (rw m refl))

pub cle_lem : (l : SkipList) (b : Entry) (es : List Entry) → IsSkipList l b es → IsCle l b
unfolding lead
cle_lem l b es w =
    let f : ℕ → Pointer = λ i. lead i es none in
    let start = IsCell-agree l.cells b f (clear_next f 0) (λ j m. ground arith) w.chain.0 in
    let r = IsCleared-from b f max_level 0 l.cells start (let t = w.top in omega (arith, t)) in
    let bottom : next_of r.cleared b.addr 0 ≡ ok none =
      next_of-cell r.cleared b (clear_next f b.level) r.cell 0 (let t = w.top in omega (arith, t))
      ∙ ap ok (let t = w.top in ground arith) in
    let n : Node = record { key = b.key; value = b.value; nexts = replicate max_level none } in
    record {
      after = record l { cells = store r.cleared l.head (some n); bottom_level_node_count = 0 };
      result =
          cle-step l r.cleared (record { key = b.key; value = b.value; nexts = r.cell.nexts })
            (ap (λ a. clear_levels max_level 0 a l.cells) (sym w.head) ∙ r.result)
            (ap (λ a. next_of r.cleared a 0) (sym w.head) ∙ bottom)
            (ap r.cleared (sym w.head) ∙ r.cell.found);
      shape = record {
        chain = (
          record {
            nexts = replicate max_level none;
            found = let h = w.head in ground arith;
            levels = length-replicate {A = Pointer} max_level none ∙ sym w.top;
            leads = λ i h. get-replicate max_level i none (let t = w.top in omega (arith, h, t));
          },
          tt,
        );
        head = w.head;
        top = w.top;
        old = w.old;
        count = refl;
        sorted = tt;
        sound = tt;
        distinct = (tt, tt);
      };
      kept = λ a n. rw n (r.frame a (subst (λ h. (a == h) ≡ false) (sym w.head) n));
    }

-- `cle` on a skip list in shape returns a list of which the head leads to no node on any level, but no
-- node is freed: at every address but that of the head the heap has what it had.
pub cle_leaks :
    (l : SkipList) (b : Entry) (es : List Entry)
    → IsSkipList l b es
    → (after : SkipList) × (cle l ≡ ok after)
      × ((i : ℕ) → i < max_level → next_of after.cells after.head i ≡ ok none)
      × ((a : ℕ) → (a == l.head) ≡ false → after.cells a ≡ l.cells a)
unfolding lead
cle_leaks l b es w =
    let r = cle_lem l b es w in
    let leads : (i : ℕ) → i < max_level → next_of r.after.cells r.after.head i ≡ ok none = λ i h.
      ap (λ a. next_of r.after.cells a i) (sym (r.shape.head))
      ∙ next_of-cell r.after.cells b (λ j. none) r.shape.chain.0 i
          (let t = r.shape.top in omega (arith, t, h)) in
    let kept : (a : ℕ) → (a == l.head) ≡ false → r.after.cells a ≡ l.cells a = λ a n. r.kept a n in
    (r.after, r.result, leads, kept)
