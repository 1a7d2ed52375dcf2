-- ===== src/Workers/Steps.antt =====
-- The queue, its producers, its workers and their destructors, one section or call at a time.
use mmo_wow.Prelude.{
  ℕ, ◌+◌, ◌≡◌, ap, ◌∙◌, arith, Bool, true, false, List, [], ◌∷◌, ◌++◌, map, none, some,
}
use mmo_wow.Workers.{
  Pcq, push, wait_and_pop, waits, returns, cancel, Phase, checking, asleep, popped, executing,
  exited, Worker, spawned, turn, taken_by, executed_by, lost_by, rouse, World, tally,
}

abbrev pub worker : Phase → Bool → Worker
worker p t = record { phase = p; token = t }

unfoldable pub sleeping : Phase → ℕ
sleeping asleep = 1
sleeping checking = 0
sleeping (popped got) = 0
sleeping (executing op) = 0
sleeping exited = 0

unfoldable pub awake : Phase → ℕ
awake checking = 1
awake asleep = 0
awake (popped got) = 0
awake (executing op) = 0
awake exited = 0

abbrev pub sleepers : List Worker → ℕ
sleepers = tally (λ s. sleeping s.phase)

abbrev pub seekers : List Worker → ℕ
seekers = tally (λ s. awake s.phase)

-- `Push` for the threads: `notify_one` is done
abbrev pub pushed : World → ℕ → List Worker → World
pushed w value workers = record w {
  queue = push value w.queue;
  workers = workers;
  given = w.given ++ (value ∷ []);
}

-- a turn of one worker among the others
abbrev pub worked : World → List Worker → Phase → Bool → List Worker → World
worked w before p t after = record w {
  queue = (turn t p w.queue).1;
  workers = before ++ (worker (turn t p w.queue).0 t ∷ after);
  taken = w.taken ++ taken_by p w.queue;
  executed = w.executed ++ executed_by p;
  lost = w.lost ++ lost_by t p;
}

-- `Cancel`, with `notify_all`
abbrev pub cancelled : World → World
cancelled w = record w {
  queue = (cancel w.queue).1;
  workers = map rouse w.workers;
  deleted = w.deleted ++ (cancel w.queue).0;
}

-- `mark` and `close` are the first two lines of `~DatabaseWorker`.
pub data Step (w : World) : World → Type 0 where
  spawn : Step w (record w { workers = w.workers ++ (spawned ∷ []) })
  push_quiet : (value : ℕ) → sleepers w.workers ≡ 0 → Step w (pushed w value w.workers)
  push_waking :
      (value : ℕ) (before : List Worker) (t : Bool) (after : List Worker)
      → w.workers ≡ before ++ (worker asleep t ∷ after)
      → Step w (pushed w value (before ++ (worker checking t ∷ after)))
  work :
      (before : List Worker) (p : Phase) (t : Bool) (after : List Worker)
      → w.workers ≡ before ++ (worker p t ∷ after)
      → Step w (worked w before p t after)
  spurious :
      (before : List Worker) (t : Bool) (after : List Worker)
      → w.workers ≡ before ++ (worker asleep t ∷ after)
      → Step w (record w { workers = before ++ (worker checking t ∷ after) })
  mark :
      (before : List Worker) (p : Phase) (t : Bool) (after : List Worker)
      → w.workers ≡ before ++ (worker p t ∷ after)
      → Step w (record w { workers = before ++ (worker p true ∷ after) })
  close :
      (before : List Worker) (p : Phase) (after : List Worker)
      → w.workers ≡ before ++ (worker p true ∷ after)
      → Step w (cancelled w)

-- what can come after a state
pub data Later (w : World) : World → Type 0 where
  here : Later w w
  next : {u v : World} → Later w u → Step u v → Later w v

pub tally-split :
    (f : Worker → ℕ) (before : List Worker) (s : Worker) (after : List Worker)
    → tally f (before ++ (s ∷ after)) ≡ tally f before + (f s + tally f after)
unfolding tally
tally-split f [] s after = omega arith
tally-split f (b ∷ before) s after = omega (arith, tally-split f before s after)

pub tally-at :
    (f : Worker → ℕ) (ws before : List Worker) (s : Worker) (after : List Worker)
    → ws ≡ before ++ (s ∷ after)
    → tally f ws ≡ tally f before + (f s + tally f after)
tally-at f ws before s after e = ap (tally f) e ∙ tally-split f before s after

pub wait-empty : (q : Pcq) → q.items ≡ [] → q.shutdown ≡ false → wait_and_pop q ≡ waits
unfolding wait_and_pop
wait-empty q e k = ground (arith, e, k)

pub wait-closed : (q : Pcq) → q.shutdown ≡ true → wait_and_pop q ≡ returns none q
unfolding wait_and_pop
wait-closed q k = ground (arith, k)

pub wait-some :
    (q : Pcq) (v : ℕ) (rest : List ℕ)
    → q.items ≡ v ∷ rest
    → q.shutdown ≡ false
    → wait_and_pop q ≡ returns (some v) (record q { items = rest })
unfolding wait_and_pop
wait-some q v rest e k = ground (arith, e, k)
