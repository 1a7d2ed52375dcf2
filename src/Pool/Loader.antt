-- ===== src/Pool/Loader.antt =====
-- Server/database/Database/DatabaseLoader.cpp: the four stages, and what is closed when one fails.
use mmo_wow.Prelude.{
  arith, inl, inr, Bool-cases, ℕ, ◌≡◌, refl, sym, ap, ◌∙◌, Bool, true, false, List, [], ◌∷◌, ◌++◌,
  if◌then◌else◌, append-nil, append_assoc,
}
use mathlib.Core.Path.{subst}

-- a step of a database, by the number of its pool
pub data Task : Type 0 where
  open_task : ℕ → Task
  populate : ℕ → Task
  update : ℕ → Task
  prepare : ℕ → Task

-- `DatabaseLoader`: the queues, the stack of close operations, and what was done: the tasks that
-- succeeded and the pools that were closed, oldest first
pub record Loader : Type 0 where
  pub opens : List Task
  pub populates : List Task
  pub updates : List Task
  pub prepares : List Task
  pub close : List ℕ
  pub done : List Task
  pub closed : List ℕ

unfoldable pub new_loader : Loader
new_loader = record {
  opens = [];
  populates = [];
  updates = [];
  prepares = [];
  close = [];
  done = [];
  closed = [];
}

-- `AddDatabase` of a pool, by whether updates are enabled for it
unfoldable pub add_database : Bool → ℕ → Loader → Loader
add_database updates_enabled pool l = record l {
  opens = l.opens ++ (open_task pool ∷ []);
  populates = if updates_enabled then l.populates ++ (populate pool ∷ []) else l.populates;
  updates = if updates_enabled then l.updates ++ (update pool ∷ []) else l.updates;
  prepares = l.prepares ++ (prepare pool ∷ []);
}

-- the close operations that a task pushes when it succeeds
abbrev pub pushed : Task → List ℕ
pushed (open_task pool) = pool ∷ []
pushed (populate pool) = []
pushed (update pool) = []
pushed (prepare pool) = []

-- the loop over `_close`
unfoldable pub close_all : List ℕ → Loader → Loader
close_all [] l = record l { close = [] }
close_all (pool ∷ rest) l = close_all rest (record l { closed = l.closed ++ (pool ∷ []) })

-- a queue of the loader, by the stage of `Load` that processes it
pub data Stage : Type 0 where
  opening populating updating preparing : Stage

abbrev pub same_stage : Stage → Stage → Bool
same_stage opening opening = true
same_stage populating populating = true
same_stage updating updating = true
same_stage preparing preparing = true
same_stage _ _ = false

unfoldable pub queue_of : Stage → Loader → List Task
queue_of opening l = l.opens
queue_of populating l = l.populates
queue_of updating l = l.updates
queue_of preparing l = l.prepares

unfoldable pub set_queue : Stage → List Task → Loader → Loader
set_queue stage queue l = record l {
  opens = if same_stage stage opening then queue else l.opens;
  populates = if same_stage stage populating then queue else l.populates;
  updates = if same_stage stage updating then queue else l.updates;
  prepares = if same_stage stage preparing then queue else l.prepares;
}

-- what a task that succeeded leaves: its close operation, and its queue without it
abbrev pub popped : Stage → Task → List Task → Loader → Loader
popped stage task rest l =
    set_queue stage rest (record l { close = pushed task ++ l.close; done = l.done ++ (task ∷ []) })

queue_of-set_queue :
    (stage : Stage) (queue : List Task) (l : Loader)
    → queue_of stage (set_queue stage queue l) ≡ queue
unfolding queue_of set_queue
queue_of-set_queue opening queue l = refl
queue_of-set_queue populating queue l = refl
queue_of-set_queue updating queue l = refl
queue_of-set_queue preparing queue l = refl

queue_of-popped :
    (stage other : Stage) (task : Task) (rest : List Task) (l : Loader)
    → same_stage stage other ≡ false
    → queue_of other (popped stage task rest l) ≡ queue_of other l
unfolding queue_of set_queue
queue_of-popped stage opening task rest l e = ap (λ b. if b then rest else l.opens) e
queue_of-popped stage populating task rest l e = ap (λ b. if b then rest else l.populates) e
queue_of-popped stage updating task rest l e = ap (λ b. if b then rest else l.updates) e
queue_of-popped stage preparing task rest l e = ap (λ b. if b then rest else l.prepares) e

module _ (succeeds : Task → Bool) where
  -- `Process` of the queue of a stage: a task is popped when it has succeeded
  unfoldable pub process : Stage → List Task → Loader → Bool × Loader
  unfolding set_queue
  process stage [] l = (true, l)
  process stage (task ∷ rest) l = elim (succeeds task) [
    | false ↦ (false, close_all l.close l)
    | true ↦ process stage rest (popped stage task rest l)
  ]

  abbrev pub then_process : Stage → Bool × Loader → Bool × Loader
  then_process stage (false, l) = (false, l)
  then_process stage (true, l) = process stage (queue_of stage l) l

  -- `Load`
  unfoldable pub load : Loader → Bool × Loader
  load l =
      then_process preparing
        (then_process updating (then_process populating (process opening l.opens l)))

  close_all-eq :
      (pools : List ℕ) (l : Loader)
      → close_all pools l ≡ record l { close = []; closed = l.closed ++ pools }
  unfolding close_all
  close_all-eq [] l = ap (λ c. record l { close = []; closed = c }) (sym (append-nil l.closed))
  close_all-eq (pool ∷ rest) l =
      close_all-eq rest (record l { closed = l.closed ++ (pool ∷ []) })
      ∙ ap (λ c. record l { close = []; closed = c }) (append_assoc l.closed (pool ∷ []) rest)

  -- the pools of which an `open_task` was done, the latest first
  abbrev pub opened_by : List Task → List ℕ
  opened_by [] = []
  opened_by (task ∷ rest) = opened_by rest ++ pushed task

  opened_by-append :
      (xs : List Task) (task : Task) → opened_by (xs ++ (task ∷ [])) ≡ pushed task ++ opened_by xs
  opened_by-append [] task = sym (append-nil (pushed task))
  opened_by-append (x ∷ xs) task =
      ap (λ ps. ps ++ pushed x) (opened_by-append xs task)
      ∙ append_assoc (pushed task) (opened_by xs) (pushed x)

  -- Nothing is closed while what was opened is registered, and all of it once a task has failed.
  abbrev Registered : Loader → Type 0
  Registered l = (l.closed ≡ []) × (l.close ≡ opened_by l.done)

  abbrev pub Finished : Bool → Loader → Type 0
  Finished true l = Registered l
  Finished false l = (l.close ≡ []) × (l.closed ≡ opened_by l.done)

  process-Finished :
      (stage : Stage) (queue : List Task) (l : Loader)
      → Registered l
      → Finished (process stage queue l).0 (process stage queue l).1
  unfolding process set_queue
  process-Finished stage [] l r = r
  process-Finished stage (task ∷ rest) l r = branch (succeeds task) (
      process-Finished stage rest (popped stage task rest l)
        (r.0, ap (λ c. pushed task ++ c) r.1 ∙ sym (opened_by-append l.done task)))
    where
      next : Bool × Loader
      next = process stage rest (popped stage task rest l)

      branch :
          (b : Bool)
          → Finished next.0 next.1
          → let x : Bool × Loader = elim b [ false ↦ (false, close_all l.close l) | true ↦ next ] in
            Finished x.0 x.1
      branch true f = f
      branch false f =
          subst (Finished false) (sym (close_all-eq l.close l))
            (refl, ap (λ c. c ++ l.close) r.0 ∙ r.1)

  then-Finished :
      (stage : Stage) (x : Bool × Loader)
      → Finished x.0 x.1
      → Finished (then_process stage x).0 (then_process stage x).1
  then-Finished stage (false, l) f = f
  then-Finished stage (true, l) f = process-Finished stage (queue_of stage l) l f

  -- a stage that succeeded: its tasks are done, in order, its queue is empty, and the other queues
  -- are as they were
  record Through (stage : Stage) (queue : List Task) (l u : Loader) : Type 0 where
    pub in_order : u.done ≡ l.done ++ queue
    pub emptied : queue_of stage u ≡ []
    pub kept :
        (other : Stage) → same_stage stage other ≡ false → queue_of other u ≡ queue_of other l

  process-Through :
      (stage : Stage) (queue : List Task) (l u : Loader)
      → queue_of stage l ≡ queue
      → process stage queue l ≡ (true, u)
      → Through stage queue l u
  unfolding process
  process-Through stage [] l u q e =
      let f : u ≡ l = ground (arith, e) in
      record {
        in_order = ap (λ (x : Loader). x.done) f ∙ sym (append-nil l.done);
        emptied = ap (queue_of stage) f ∙ q;
        kept = λ other d. ap (queue_of other) f;
      }
  process-Through stage (task ∷ rest) l u q e = elim (Bool-cases (succeeds task)) [
    | inr s ↦ absurd (ground (arith, e, s))
    | inl s ↦
        (let v : Loader = record l {
          close = pushed task ++ l.close;
          done = l.done ++ (task ∷ []);
        } in
          let t =
            process-Through stage rest (popped stage task rest l) u
              (queue_of-set_queue stage rest v) (ground (arith, e, s)) in
          record {
            in_order = t.in_order ∙ append_assoc l.done (task ∷ []) rest;
            emptied = t.emptied;
            kept = λ other d. t.kept other d ∙ queue_of-popped stage other task rest l d;
          })
  ]

  then-Through :
      (stage : Stage) (x : Bool × Loader) (u : Loader)
      → then_process stage x ≡ (true, u)
      → (v : Loader) × (x ≡ (true, v)) × Through stage (queue_of stage v) v u
  then-Through stage (false, l) u e = absurd (ground (arith, e))
  then-Through stage (true, l) u e = (l, refl, process-Through stage (queue_of stage l) l u refl e)

  -- the tasks of all stages, in the order of the stages
  abbrev pub all_tasks : Loader → List Task
  all_tasks l = l.opens ++ (l.populates ++ (l.updates ++ l.prepares))

  load-in_order :
      (l u : Loader)
      → l.done ≡ []
      → load l ≡ (true, u)
      → (u.done ≡ all_tasks l) × (all_tasks u ≡ [])
  unfolding load queue_of
  load-in_order l u d e =
      let (v2, e2, t3) =
        then-Through preparing
          (then_process updating (then_process populating (process opening l.opens l))) u e in
      let (v1, e1, t2) =
        then-Through updating (then_process populating (process opening l.opens l)) v2 e2 in
      let (v0, e0, t1) = then-Through populating (process opening l.opens l) v1 e1 in
      let t0 = process-Through opening l.opens l v0 refl e0 in
      let os = l.opens in
      let ps = l.populates in
      let us = l.updates in
      let first : v1.done ≡ os ++ ps =
        t1.in_order
        ∙ ap (λ x. v0.done ++ x) (t0.kept populating refl)
        ∙ ap (λ x. x ++ ps) (t0.in_order ∙ ap (λ x. x ++ os) d) in
      let second : v2.done ≡ (os ++ ps) ++ us =
        t2.in_order
        ∙ ap (λ x. v1.done ++ x) (t1.kept updating refl ∙ t0.kept updating refl)
        ∙ ap (λ x. x ++ us) first in
      (
        t3.in_order
            ∙ ap (λ x. v2.done ++ x)
                (t2.kept preparing refl ∙ t1.kept preparing refl ∙ t0.kept preparing refl)
            ∙ ap (λ x. x ++ l.prepares) second
            ∙ append_assoc (os ++ ps) us l.prepares
            ∙ append_assoc os ps (us ++ l.prepares),
        no_tasks u (t3.kept opening refl ∙ t2.kept opening refl ∙ t1.kept opening refl ∙ t0.emptied)
            (t3.kept populating refl ∙ t2.kept populating refl ∙ t1.emptied)
            (t3.kept updating refl ∙ t2.emptied) t3.emptied,
      )
    where
      no_tasks :
          (u : Loader)
          → u.opens ≡ []
          → u.populates ≡ []
          → u.updates ≡ []
          → u.prepares ≡ []
          → all_tasks u ≡ []
      no_tasks u a b c d =
          ap (λ xs. xs ++ (u.populates ++ (u.updates ++ u.prepares))) a
          ∙ ap (λ xs. xs ++ (u.updates ++ u.prepares)) b
          ∙ ap (λ xs. xs ++ u.prepares) c
          ∙ d

  load-Finished :
      (l : Loader) → l.close ≡ [] → l.done ≡ [] → l.closed ≡ [] → Finished (load l).0 (load l).1
  unfolding load
  load-Finished l c d e =
      then-Finished preparing
        (then_process updating (then_process populating (process opening l.opens l)))
        (then-Finished updating (then_process populating (process opening l.opens l)) (
          then-Finished populating (process opening l.opens l)
            (process-Finished opening l.opens l (e, c ∙ sym (ap opened_by d)))))

  -- how a `Load` ends: everything is done and registered, or what was opened is closed
  abbrev pub Loaded : Loader → Bool → Loader → Type 0
  Loaded l true u = Finished true u × (u.done ≡ all_tasks l) × (all_tasks u ≡ [])
  Loaded l false u = Finished false u

  -- From a loader that has done nothing: when a stage fails, exactly the pools that were opened are
  -- closed, the latest first, and no close operation is left; when Load succeeds, the tasks of all
  -- stages are done, in the order of the stages, their queues are empty, no pool is closed, and the
  -- close operations of those that were opened are registered.
  pub load-Loaded :
      (l : Loader) → l.close ≡ [] → l.done ≡ [] → l.closed ≡ [] → Loaded l (load l).0 (load l).1
  load-Loaded l c d e = by_end (load l) refl (load-Finished l c d e)
    where
      by_end : (x : Bool × Loader) → load l ≡ x → Finished x.0 x.1 → Loaded l x.0 x.1
      by_end (true, u) q f = let (order, left) = load-in_order l u d q in (f, order, left)
      by_end (false, u) q f = f
