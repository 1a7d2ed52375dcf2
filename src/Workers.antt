-- ===== src/Workers.antt =====
-- Server/Common/Threading/ProducerConsumerQueue.h and Server/database/Database/DatabaseWorker.cpp:
-- the queue of the operations that wait for a connection, the threads that serve it, as steps in any
-- order. A section under `_queueLock` is one step; an operation is named by its pointer.
pub mod Steps
pub mod Wakeup
pub mod Served
pub mod Once
pub mod Closing
use mmo_wow.Prelude.{
  ℕ, suc, ◌+◌, ◌≡◌, Bool, true, false, ◌&&◌, ◌||◌, not, List, [], ◌∷◌, ◌++◌, map, Option, none,
  some, length, if◌then◌else◌,
}

-- `_queue` and `_shutdown`
pub record Pcq : Type 0 where
  pub items : List ℕ
  pub shutdown : Bool

unfoldable pub empty_queue : Pcq
empty_queue = record { items = []; shutdown = false }

abbrev pub is_empty : List ℕ → Bool
is_empty [] = true
is_empty (x ∷ xs) = false

-- `Push` without its wake-up
unfoldable pub push : ℕ → Pcq → Pcq
push value q = record q { items = q.items ++ (value ∷ []) }

-- `Size`
unfoldable pub size : Pcq → ℕ
size q = length q.items

-- `Pop`: whether it has a value, the value, and the queue left
unfoldable pub pop : ℕ → Pcq → Bool × ℕ × Pcq
pop value q = elim q.items [
  | [] ↦ (false, value, q)
  | (v ∷ rest) ↦ if q.shutdown then (false, value, q) else (true, v, record q { items = rest })
]

-- One section of `WaitAndPop` under the lock: the thread waits on the condition, or the call returns,
-- with a value or without.
pub data Attempt : Type 0 where
  waits : Attempt
  returns : Option ℕ → Pcq → Attempt

unfoldable pub wait_and_pop : Pcq → Attempt
wait_and_pop q =
    if is_empty q.items && not q.shutdown
    then waits
    else (if is_empty q.items || q.shutdown then returns none q else elim q.items [
      | [] ↦ returns none q
      | (v ∷ rest) ↦ returns (some v) (record q { items = rest })
    ])

-- the loop of `Cancel`: what it deletes, and what it leaves
unfoldable pub delete_all : List ℕ → List ℕ × List ℕ
delete_all [] = ([], [])
delete_all (v ∷ rest) = (v ∷ (delete_all rest).0, (delete_all rest).1)

-- `Cancel` without its wake-up
unfoldable pub cancel : Pcq → List ℕ × Pcq
cancel q = ((delete_all q.items).0, record q { items = (delete_all q.items).1; shutdown = true })

-- Where a thread in `WorkerThread` is: about to take the lock, waiting on the condition, out of
-- `WaitAndPop` with what it got, in `operation->call()`, or gone.
pub data Phase : Type 0 where
  checking : Phase
  asleep : Phase
  popped : Option ℕ → Phase
  executing : ℕ → Phase
  exited : Phase

-- a worker's thread and its `_cancelationToken`
pub record Worker : Type 0 where
  pub phase : Phase
  pub token : Bool

-- `DatabaseWorker(newQueue, connection)`
unfoldable pub spawned : Worker
spawned = record { phase = checking; token = false }

abbrev pub after_attempt : Attempt → Pcq → Phase × Pcq
after_attempt waits q = (asleep, q)
after_attempt (returns got left) q = (popped got, left)

-- the test `_cancelationToken || !operation`
abbrev pub after_pop : Bool → Option ℕ → Phase
after_pop token none = exited
after_pop token (some op) = if token then exited else executing op

-- `WorkerThread`: what the next piece of the loop does to the thread and the queue
unfoldable pub turn : Bool → Phase → Pcq → Phase × Pcq
turn token checking q = after_attempt (wait_and_pop q) q
turn token asleep q = (asleep, q)
turn token (popped got) q = (after_pop token got, q)
turn token (executing op) q = (checking, q)
turn token exited q = (exited, q)

abbrev pub listed : Option ℕ → List ℕ
listed none = []
listed (some v) = v ∷ []

abbrev pub got_from : Attempt → List ℕ
got_from waits = []
got_from (returns got left) = listed got

-- what a turn takes out of the queue, executes and deletes, or drops without either
unfoldable pub taken_by : Phase → Pcq → List ℕ
taken_by checking q = got_from (wait_and_pop q)
taken_by asleep q = []
taken_by (popped got) q = []
taken_by (executing op) q = []
taken_by exited q = []

unfoldable pub executed_by : Phase → List ℕ
executed_by (executing op) = op ∷ []
executed_by checking = []
executed_by asleep = []
executed_by (popped got) = []
executed_by exited = []

unfoldable pub lost_by : Bool → Phase → List ℕ
lost_by token (popped got) = if token then listed got else []
lost_by token (executing op) = []
lost_by token checking = []
lost_by token asleep = []
lost_by token exited = []

-- a wake-up
abbrev pub roused : Phase → Phase
roused asleep = checking
roused checking = checking
roused (popped got) = popped got
roused (executing op) = executing op
roused exited = exited

abbrev pub rouse : Worker → Worker
rouse w = record w { phase = roused w.phase }

-- The queue, its workers, and what became of the operations, oldest first: all that were pushed,
-- those a worker took out, those `Cancel` deleted, those executed, and those that are neither.
pub record World : Type 0 where
  pub queue : Pcq
  pub workers : List Worker
  pub given : List ℕ
  pub taken : List ℕ
  pub deleted : List ℕ
  pub executed : List ℕ
  pub lost : List ℕ

unfoldable pub start : World
start = record {
  queue = empty_queue;
  workers = [];
  given = [];
  taken = [];
  deleted = [];
  executed = [];
  lost = [];
}

unfoldable pub tally : (Worker → ℕ) → List Worker → ℕ
tally f [] = 0
tally f (w ∷ ws) = f w + tally f ws
