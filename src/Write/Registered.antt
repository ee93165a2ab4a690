-- ===== src/Write/Registered.antt =====
-- The task queue of engine/tsm/write.cpp, a list with a set beside it, against a plain list without repetitions.
use dtime_db.Prelude.{
  ◌≡◌, refl, sym, ap, subst, ◌∙◌, Bool, true, false, not, ◌||◌, ◌&&◌, List, [], ◌∷◌, ◌++◌,
  Bool-cases, inl, inr, if◌then◌else◌,
}
use dtime_db.Token.{Text}
use dtime_db.Maps.{same_text, same_text-eq}
use dtime_db.Maps.Laws.{sym_other}
use dtime_db.Write.{Write, member, delete, push_task, pop_task}

pub data TaskCall : Type 0 where
  push : Text → TaskCall
  pop : TaskCall

-- The names that the pops return, and the writer after the calls.
unfoldable pub run_calls : List TaskCall → Write → List Text × Write
unfolding push_task pop_task
run_calls [] w = ([], w)
run_calls (push name ∷ calls) w = run_calls calls (push_task name w)
run_calls (pop ∷ calls) w =
    let (name, w1) = pop_task w in let (names, w2) = run_calls calls w1 in (name ∷ names, w2)

-- The same on a list.
abbrev pub register : Text → List Text → List Text
register name q = if member name q then q else q ++ (name ∷ [])

abbrev pub first : List Text → Text
first [] = []
first (name ∷ q) = name

abbrev pub rest : List Text → List Text
rest [] = []
rest (name ∷ q) = q

unfoldable pub plain_calls : List TaskCall → List Text → List Text × List Text
plain_calls [] q = ([], q)
plain_calls (push name ∷ calls) q = plain_calls calls (register name q)
plain_calls (pop ∷ calls) q = let (names, q') = plain_calls calls (rest q) in (first q ∷ names, q')

abbrev pub NoTwice : List Text → Type 0
NoTwice [] = Unit
NoTwice (name ∷ q) = (member name q ≡ false) × NoTwice q

-- The set has the names of the queue, and the queue has none twice.
pub record IsRegistered (w : Write) : Type 0 where
  pub once : NoTwice w.index_task_queue
  pub same : (k : Text) → member k w.task_set ≡ member k w.index_task_queue

or_comm : (a b : Bool) → (a || b) ≡ (b || a)
or_comm true true = refl
or_comm true false = refl
or_comm false true = refl
or_comm false false = refl

or_false : (a b : Bool) → (a || b) ≡ false → (a ≡ false) × (b ≡ false)
or_false true b e = absurd (bad e)
  where
    bad : true ≡ false → ⊥
    bad e = cc
or_false false b e = (refl, e)

and_false : (a : Bool) → (a && false) ≡ false
and_false true = refl
and_false false = refl

member-append :
    (k name : Text) (q : List Text) → member k (q ++ (name ∷ [])) ≡ (same_text k name || member k q)
unfolding member
member-append k name [] = refl
member-append k name (x ∷ q) = elim (Bool-cases (same_text k x)) [
  | inl e ↦ rw e (or_comm true (same_text k name))
  | inr n ↦ rw n (member-append k name q)
]

NoTwice-append :
    (name : Text) (q : List Text) → member name q ≡ false → NoTwice q → NoTwice (q ++ (name ∷ []))
unfolding member
NoTwice-append name [] h u = (refl, tt)
NoTwice-append name (x ∷ q) h u =
    let (other, absent) = or_false (same_text name x) (member name q) h in
    (
      member-append x name q ∙ ap (λ b. b || member x q) (sym_other name x other) ∙ u.0,
      NoTwice-append name q absent u.1,
    )

member-delete :
    (k name : Text) (s : List Text)
    → member k (delete name s) ≡ (not (same_text k name) && member k s)
unfolding member delete
member-delete k name [] = sym (and_false (not (same_text k name)))
member-delete k name (x ∷ s) = elim (Bool-cases (same_text name x)) [
  | inl e ↦
      let same = ap (λ t. same_text k t) (same_text-eq name x e) in
      rw e (
        member-delete k name s
        ∙ absorb (same_text k name) (member k s)
        ∙ ap (λ b. not (same_text k name) && (b || member k s)) same)
  | inr n ↦
      rw (n, member-delete k name s)
        (distribute (same_text k x) (same_text k name) (member k s) (other k name x n))
]
  where
    absorb : (a b : Bool) → (not a && b) ≡ (not a && (a || b))
    absorb true b = refl
    absorb false b = refl

    distribute : (a b c : Bool) → (b ≡ true → a ≡ false) → (a || (not b && c)) ≡ (not b && (a || c))
    distribute true true c h = h refl
    distribute true false c h = refl
    distribute false true c h = refl
    distribute false false c h = refl

    other :
        (k name x : Text)
        → same_text name x ≡ false
        → same_text k name ≡ true
        → same_text k x ≡ false
    other k name x n e = subst (λ t. same_text t x ≡ false) (sym (same_text-eq k name e)) n

pop_same :
    (k name : Text) (q s : List Text)
    → member name q ≡ false
    → member k s ≡ member k (name ∷ q)
    → member k (delete name s) ≡ member k q
unfolding member
pop_same k name q s absent same = elim (Bool-cases (same_text k name)) [
  | inl e ↦
      member-delete k name s
      ∙ ap (λ b. not b && member k s) e
      ∙ sym (subst (λ t. member t q ≡ false) (sym (same_text-eq k name e)) absent)
  | inr n ↦
      member-delete k name s ∙ ap (λ b. not b && member k s) n ∙ same ∙ ap (λ b. b || member k q) n
]

push_task_queue :
    (name : Text) (w : Write)
    → IsRegistered w
    → (push_task name w).index_task_queue ≡ register name w.index_task_queue
unfolding push_task
push_task_queue name w good = elim (Bool-cases (member name w.task_set)) [
  | inl e ↦ rw (e, sym (good.same name) ∙ e)
  | inr n ↦ rw (n, sym (good.same name) ∙ n)
]

push_task-IsRegistered :
    (name : Text) (w : Write) → IsRegistered w → IsRegistered (push_task name w)
unfolding push_task member
push_task-IsRegistered name w good = elim (Bool-cases (member name w.task_set)) [
  | inl e ↦ rw e (record { once = good.once; same = good.same })
  | inr n ↦ rw n (record {
    once = NoTwice-append name w.index_task_queue (sym (good.same name) ∙ n) good.once;
    same = λ k.
        ap (λ b. same_text k name || b) (good.same k)
        ∙ sym (member-append k name w.index_task_queue);
  })
]

-- What a pop does to the writer and returns.
record IsPopped (w : Write) (r : Text × Write) : Type 0 where
  name : r.0 ≡ first w.index_task_queue
  queue : r.1.index_task_queue ≡ rest w.index_task_queue
  good : IsRegistered r.1

pop_nil : (w : Write) → w.index_task_queue ≡ [] → pop_task w ≡ ([], w)
unfolding pop_task
pop_nil w e = ap (λ q. by_queue q) e
  where
    by_queue : List Text → Text × Write
    by_queue [] = ([], w)
    by_queue (name ∷ q) =
        (name, record w { task_set = delete name w.task_set; index_task_queue = q })

pop_cons :
    (name : Text) (q : List Text) (w : Write)
    → w.index_task_queue ≡ name ∷ q
    → pop_task w ≡ (name, record w { task_set = delete name w.task_set; index_task_queue = q })
unfolding pop_task
pop_cons name q w e = rw (pop_task, e)

pop_task-IsPopped : (w : Write) → IsRegistered w → IsPopped w (pop_task w)
pop_task-IsPopped w good = go w.index_task_queue refl
  where
    go : (q : List Text) → w.index_task_queue ≡ q → IsPopped w (pop_task w)
    go [] e =
        subst (λ r. IsPopped w r) (sym (pop_nil w e))
          (record { name = sym (ap first e); queue = e ∙ sym (ap rest e); good = good })
    go (name ∷ q) e =
        let once = subst (λ l. NoTwice l) e good.once in
        subst (λ r. IsPopped w r) (sym (pop_cons name q w e))
          (record {
            name = sym (ap first e);
            queue = sym (ap rest e);
            good = record {
              once = once.1;
              same =
                  λ k. pop_same k name q w.task_set once.0 (good.same k ∙ ap (λ l. member k l) e);
            };
          })

-- Calls of `push_task` and `pop_task` in any order return what the same calls on a list without repetitions return,
-- where a name that waits already is not put in again, and an empty list gives the empty name; the queue is
-- that list after them, and the set still has the names of the queue, none of which stands twice.
pub run_calls-plain :
    (calls : List TaskCall) (w : Write)
    → IsRegistered w
    → ((run_calls calls w).0 ≡ (plain_calls calls w.index_task_queue).0)
      × ((run_calls calls w).1.index_task_queue ≡ (plain_calls calls w.index_task_queue).1)
      × IsRegistered (run_calls calls w).1
unfolding run_calls plain_calls
run_calls-plain [] w good = (refl, refl, good)
run_calls-plain (push name ∷ calls) w good =
    let (names, queue, after) =
      run_calls-plain calls (push_task name w) (push_task-IsRegistered name w good) in
    let same = push_task_queue name w good in
    (
      names ∙ ap (λ q. (plain_calls calls q).0) same,
      queue ∙ ap (λ q. (plain_calls calls q).1) same,
      after,
    )
run_calls-plain (pop ∷ calls) w good =
    let popped = pop_task-IsPopped w good in
    let (names, queue, after) = run_calls-plain calls (pop_task w).1 popped.good in
    let same = popped.queue in
    (
      ap (λ n. n ∷ (run_calls calls (pop_task w).1).0) popped.name
          ∙ ap (λ l. first w.index_task_queue ∷ l) (names ∙ ap (λ q. (plain_calls calls q).0) same),
      queue ∙ ap (λ q. (plain_calls calls q).1) same,
      after,
    )
