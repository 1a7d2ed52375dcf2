-- ===== src/Workers/Served.antt =====
-- What becomes of an operation: served in the order of the calls of `Push`, once.
use mmo_wow.Prelude.{
  ℕ, ◌≡◌, refl, sym, ap, ◌∙◌, ◌⊎◌, inl, inr, arith, Bool, true, false, List, [], ◌∷◌, ◌++◌,
  append-nil, append_assoc, Bool-cases, List-cases,
}
use mathlib.Core.Path.{subst}
use mmo_wow.Workers.{
  Pcq, push, wait_and_pop, cancel, Phase, checking, asleep, popped, executing, exited, turn,
  taken_by, World, start, empty_queue, delete_all, after_attempt, got_from, Attempt,
}
use mmo_wow.Workers.Steps.{
  Step, spawn, push_quiet, push_waking, work, spurious, mark, close, Later, here, next, wait-empty,
  wait-closed, wait-some,
}

pub delete_all-eq : (xs : List ℕ) → delete_all xs ≡ (xs, [])
unfolding delete_all
delete_all-eq [] = refl
delete_all-eq (x ∷ xs) = ground (arith, delete_all-eq xs)

-- the order of the operations: pushed, taken out, deleted, and in the queue
record InOrder (given taken deleted : List ℕ) (q : Pcq) : Type 0 where
  pub all : given ≡ taken ++ (deleted ++ q.items)
  pub open_none : q.shutdown ≡ false → deleted ≡ []

module _ {given taken deleted : List ℕ} {q : Pcq} (i : InOrder given taken deleted q) where
  InOrder-pushed : (value : ℕ) → InOrder (given ++ (value ∷ [])) taken deleted (push value q)
  unfolding push
  InOrder-pushed value = record {
    all =
        ap (λ xs. xs ++ (value ∷ [])) i.all
        ∙ append_assoc taken (deleted ++ q.items) (value ∷ [])
        ∙ ap (λ xs. taken ++ xs) (append_assoc deleted q.items (value ∷ []));
    open_none = i.open_none;
  }

  InOrder-cancelled : InOrder given taken (deleted ++ (cancel q).0) (cancel q).1
  unfolding cancel
  InOrder-cancelled = record {
    all =
        i.all
        ∙ ap (λ xs. taken ++ xs)
            (sym (append-nil (deleted ++ q.items))
              ∙ ap (λ (d : List ℕ × List ℕ). (deleted ++ d.0) ++ d.1)
                  (sym (delete_all-eq q.items)));
    open_none = λ e. absurd (ground (arith, e));
  }

  InOrder-same : InOrder given (taken ++ []) deleted q
  InOrder-same = record {
    all = i.all ∙ ap (λ xs. xs ++ (deleted ++ q.items)) (sym (append-nil taken));
    open_none = i.open_none;
  }

  InOrder-pops :
      (v : ℕ) (rest : List ℕ)
      → q.items ≡ v ∷ rest
      → q.shutdown ≡ false
      → InOrder given (taken ++ (v ∷ [])) deleted (record q { items = rest })
  InOrder-pops v rest f k = record {
    all =
        i.all
        ∙ ap (λ xs. taken ++ (xs ++ q.items)) (i.open_none k)
        ∙ ap (λ xs. taken ++ xs) f
        ∙ sym (append_assoc taken (v ∷ []) rest)
        ∙ ap (λ xs. (taken ++ (v ∷ [])) ++ (xs ++ rest)) (sym (i.open_none k));
    open_none = i.open_none;
  }

  -- a section of `WaitAndPop`
  InOrder-attempt :
      InOrder given
        (taken ++ got_from (wait_and_pop q))
        deleted
        (after_attempt (wait_and_pop q) q).1
  InOrder-attempt =
      let Goal : Attempt → Type 0 =
        λ a. InOrder given (taken ++ got_from a) deleted (after_attempt a q).1 in
      elim (Bool-cases q.shutdown) [
        | inl k ↦ subst Goal (sym (wait-closed q k)) InOrder-same
        | inr k ↦ elim (List-cases q.items) [
          | inl f ↦ subst Goal (sym (wait-empty q f k)) InOrder-same
          | inr (v, rest, f) ↦ subst Goal (sym (wait-some q v rest f k)) (InOrder-pops v rest f k)
        ]
      ]

  InOrder-turn :
      (p : Phase) (t : Bool) → InOrder given (taken ++ taken_by p q) deleted (turn t p q).1
  unfolding turn taken_by
  InOrder-turn checking t = InOrder-attempt
  InOrder-turn asleep t = InOrder-same
  InOrder-turn (popped got) t = InOrder-same
  InOrder-turn (executing op) t = InOrder-same
  InOrder-turn exited t = InOrder-same

abbrev Order : World → Type 0
Order w = InOrder w.given w.taken w.deleted w.queue

Order-start : Order start
unfolding start empty_queue
Order-start = record { all = refl; open_none = λ e. refl }

Step-Order : {w u : World} → Order w → Step w u → Order u
Step-Order i spawn = i
Step-Order i (push_quiet value e) = InOrder-pushed i value
Step-Order i (push_waking value before t after e) = InOrder-pushed i value
Step-Order i (work before p t after e) = InOrder-turn i p t
Step-Order i (spurious before t after e) = i
Step-Order i (mark before p t after e) = i
Step-Order i (close before p after e) = InOrder-cancelled i

Later-Order : {w u : World} → Order w → Later w u → Order u
Later-Order i here = i
Later-Order i (next l s) = Step-Order (Later-Order i l) s

-- In every state that can be reached, the operations that were pushed are, in this order, those that
-- the workers took out, those that `Cancel` deleted, and those in the queue; while the queue is not
-- shut down none is deleted.
pub served-in_order :
    {w : World}
    → Later start w
    → (w.given ≡ w.taken ++ (w.deleted ++ w.queue.items))
      × ((w.queue.shutdown ≡ true) ⊎ (w.deleted ≡ []))
served-in_order {w} l =
    let i = Later-Order Order-start l in
    (i.all, elim (Bool-cases w.queue.shutdown) [ inl k ↦ inl k | inr k ↦ inr (i.open_none k) ])
