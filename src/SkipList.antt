-- ===== src/SkipList.antt =====
-- `SkipList<std::string>` of engine/tsm/skip_list.h: nodes at addresses, each with a vector of pointers, one for each
-- level that the node has. The level of a new node is an argument of `put_key`. The proofs are in the modules below.
pub mod Cells
pub mod Walk
pub mod Search
pub mod Links
pub mod Link
pub mod Unlink
pub mod Points
pub mod Shape
pub mod Insert
pub mod Lookup
pub mod Erase
pub mod Clear
pub mod Iterate
pub mod Holding
pub mod Levels
pub mod Refine
use dtime_db.Prelude.{
  ℕ, zero, suc, ◌+◌, ◌-◌, ◌*◌, ◌^◌, ◌%◌, Bool, true, false, Option, none, some, List, [], ◌∷◌, ◌==◌,
  ltb, if◌then◌else◌, get_elem?, length, replicate,
}
use dtime_db.Token.{Text}

-- A time point is a signed 64-bit number, here its bit pattern.
abbrev pub rank : ℕ → ℕ
rank key = (key + 2 ^ 63) % 2 ^ 64

abbrev pub before : ℕ → ℕ → Bool
before k k' = ltb (rank k) (rank k')

abbrev pub Pointer : Type 0
Pointer = Option ℕ

pub record Node : Type 0 where
  pub key : ℕ
  pub value : Text
  pub nexts : List Pointer

abbrev pub Heap : Type 0
Heap = ℕ → Option Node

pub record SkipList : Type 0 where
  pub cells : Heap
  pub next_address : ℕ
  pub head : ℕ
  pub bottom_level_node_count : ℕ

-- A null pointer, a freed node or a level that a node lacks is a fault.
pub data Run {ℓ} (A : Type ℓ) : Type ℓ where
  ok : A → Run A
  fault out_of_fuel : Run A

infixl 5 ◌>>=◌
abbrev pub ◌>>=◌ {ℓ κ} : {A : Type ℓ} {B : Type κ} → Run A → (A → Run B) → Run B
ok a >>= f = f a
fault >>= f = fault
out_of_fuel >>= f = out_of_fuel

abbrev pub from_option {ℓ} : {A : Type ℓ} → Option A → Run A
from_option none = fault
from_option (some a) = ok a

abbrev pub store : Heap → ℕ → Option Node → Heap
store cells a n = λ x. if x == a then n else cells x

abbrev pub set_elem {ℓ} : {A : Type ℓ} → List A → ℕ → A → List A
set_elem [] i a = []
set_elem (x ∷ xs) zero a = a ∷ xs
set_elem (x ∷ xs) (suc i) a = x ∷ set_elem xs i a

-- `a->m_nexts[i]`
unfoldable pub next_of : Heap → ℕ → ℕ → Run Pointer
next_of cells a i = do n ← from_option (cells a); from_option (get_elem? n.nexts i)

-- `a->m_nexts[i] = p`
unfoldable pub set_next : Heap → ℕ → ℕ → Pointer → Run Heap
set_next cells a i p = do
  n ← from_option (cells a)
  old ← from_option (get_elem? n.nexts i)
  ok (store cells a (some (record n { nexts = set_elem n.nexts i p })))

abbrev pub max_level : ℕ
max_level = 32

unfoldable pub new_skip_list : SkipList
new_skip_list = record {
  cells =
      store (λ a. none) 0 (some (record { key = 0; value = []; nexts = replicate max_level none }));
  next_address = 1;
  head = 0;
  bottom_level_node_count = 0;
}

-- The level after draw `i` and those behind it, with `left` rounds until `MAX_LEVEL`.
unfoldable pub raise_level : (ℕ → ℕ) → ℕ → ℕ → ℕ
raise_level draw zero i = suc i
raise_level draw (suc left) i =
    let more = raise_level draw left (suc i) in if ltb (draw i % 100) 50 then more else suc i

-- The draws of `rand` from the first on.
unfoldable pub random_level : (ℕ → ℕ) → ℕ
random_level draw = raise_level draw 31 0

-- `while (current->m_nexts[i] != nullptr && current->m_nexts[i]->m_key < key) current = current->m_nexts[i];`
unfoldable pub walk : ℕ → Heap → ℕ → ℕ → ℕ → Run ℕ
walk zero cells i key current = out_of_fuel
walk (suc fuel) cells i key current = do
  p ← next_of cells current i
  elim p [
    | none ↦ ok current
    | some q ↦ do
      n ← from_option (cells q)
      let further = walk fuel cells i key q
      (if before n.key key then further else ok current)
  ]

-- The loop over the levels below `i`: the node where it ends, and `update` from level 0 on.
unfoldable pub search : ℕ → ℕ → Heap → ℕ → ℕ → List ℕ → Run (ℕ × List ℕ)
search fuel zero cells key current update = ok (current, update)
search fuel (suc i) cells key current update = do
  c ← walk fuel cells i key current
  search fuel i cells key c (c ∷ update)

-- Rounds that a loop along the list takes at most.
abbrev pub rounds : SkipList → ℕ
rounds l = suc l.bottom_level_node_count

-- The node behind the last one before `key`, and `update`.
unfoldable pub locate : ℕ → SkipList → Run (Pointer × List ℕ)
locate key l = do
  (current, update) ← search (rounds l) max_level l.cells key l.head []
  p ← next_of l.cells current 0
  ok (p, update)

-- `current` if it has the key.
unfoldable pub match_key : ℕ → SkipList → Pointer → Run (Option (ℕ × Node))
match_key key l none = ok none
match_key key l (some q) = do
  n ← from_option (l.cells q)
  ok (if n.key == key then some (q, n) else none)

unfoldable pub link_levels : ℕ → ℕ → List ℕ → ℕ → Heap → Run Heap
link_levels zero i update new_node cells = ok cells
link_levels (suc n) i [] new_node cells = fault
link_levels (suc n) i (u ∷ update) new_node cells = do
  p ← next_of cells u i
  cells1 ← set_next cells new_node i p
  cells2 ← set_next cells1 u i (some new_node)
  link_levels n (suc i) update new_node cells2

unfoldable pub put_new : ℕ → ℕ → Text → List ℕ → SkipList → Run SkipList
put_new level key value update l = do
  let node : Node = record { key = key; value = value; nexts = replicate level none }
  cells ← link_levels level 0 update l.next_address (store l.cells l.next_address (some node))
  ok (record {
    cells = cells;
    next_address = suc l.next_address;
    head = l.head;
    bottom_level_node_count =
        if ltb 0 level then suc l.bottom_level_node_count else l.bottom_level_node_count;
  })

-- The list, and what `value` refers to after the call: where the key is there already, the stored value is
-- copied to the argument.
unfoldable pub put_key : ℕ → ℕ → Text → SkipList → Run (SkipList × Text)
put_key level key value l = do
  (p, update) ← locate key l
  found ← match_key key l p
  elim found [
    | some (q, n) ↦ ok (l, n.value)
    | none ↦ do
      l1 ← put_new (if ltb max_level level then max_level else level) key value update l
      ok (l1, value)
  ]

unfoldable pub get_key : ℕ → SkipList → Run (Option Text)
get_key key l = do
  (p, update) ← locate key l
  found ← match_key key l p
  ok (elim found [ none ↦ none | some (q, n) ↦ some n.value ])

abbrev pub same_pointer : Pointer → ℕ → Bool
same_pointer none q = false
same_pointer (some p) q = p == q

unfoldable pub unlink_levels : ℕ → List ℕ → ℕ → Heap → Run Heap
unlink_levels i [] current cells = ok cells
unlink_levels i (u ∷ update) current cells = do
  p ← next_of cells u i
  let unlink : Run Heap = do
    p1 ← next_of cells current i
    cells1 ← set_next cells u i p1
    unlink_levels (suc i) update current cells1
  (if same_pointer p current then unlink else ok cells)

unfoldable pub del_key : ℕ → SkipList → Run SkipList
del_key key l = do
  (p, update) ← locate key l
  found ← match_key key l p
  elim found [
    | none ↦ ok l
    | some (q, n) ↦ do
      cells ← unlink_levels 0 update q l.cells
      ok (record l {
        cells = store cells q none;
        bottom_level_node_count = l.bottom_level_node_count - 1;
      })
  ]

-- `m_head->m_nexts[i] = nullptr`, for `n` levels from `i` on.
unfoldable pub clear_levels : ℕ → ℕ → ℕ → Heap → Run Heap
clear_levels zero i head cells = ok cells
clear_levels (suc n) i head cells = do
  cells1 ← set_next cells head i none
  clear_levels n (suc i) head cells1

-- The loop that frees the nodes from `current` on.
unfoldable pub free_nodes : ℕ → Heap → Pointer → Run Heap
free_nodes fuel cells none = ok cells
free_nodes zero cells (some q) = out_of_fuel
free_nodes (suc fuel) cells (some q) = do
  p ← next_of cells q 0
  free_nodes fuel (store cells q none) p

-- The loop that frees the nodes begins where the head leads on the lowest level.
unfoldable pub cle : SkipList → Run SkipList
cle l = do
  cells1 ← clear_levels max_level 0 l.head l.cells
  p ← next_of cells1 l.head 0
  cells2 ← free_nodes (rounds l) cells1 p
  n ← from_option (cells2 l.head)
  ok (record l {
    cells = store cells2 l.head (some (record n { nexts = replicate max_level none }));
    bottom_level_node_count = 0;
  })

-- Iteration from `p` along the lowest level: `begin`, `++` and `*`.
unfoldable pub iterate : ℕ → Heap → Pointer → Run (List (ℕ × Text))
iterate fuel cells none = ok []
iterate zero cells (some q) = out_of_fuel
iterate (suc fuel) cells (some q) = do
  n ← from_option (cells q)
  p ← next_of cells q 0
  points ← iterate fuel cells p
  ok ((n.key, n.value) ∷ points)

unfoldable pub points_of : SkipList → Run (List (ℕ × Text))
points_of l = do p ← next_of l.cells l.head 0; iterate (rounds l) l.cells p

-- A list without nodes has the time point 0.
unfoldable pub min_key : SkipList → Run ℕ
min_key l = do
  p ← next_of l.cells l.head 0
  elim p [ none ↦ ok 0 | some q ↦ do n ← from_option (l.cells q); ok n.key ]

-- The last node behind `current` on the lowest level.
unfoldable pub last_node : ℕ → Heap → ℕ → Run ℕ
last_node zero cells current = out_of_fuel
last_node (suc fuel) cells current = do
  p ← next_of cells current 0
  elim p [ none ↦ ok current | some q ↦ last_node fuel cells q ]

unfoldable pub max_key : SkipList → Run ℕ
max_key l = do
  q ← last_node (rounds l) l.cells l.head
  (if q == l.head then ok 0 else (from_option (l.cells q) >>= λ n. ok n.key))

-- `empty`: no node is counted.
unfoldable pub is_empty_list : SkipList → Bool
is_empty_list l = l.bottom_level_node_count == 0
