-- ===== src/Mpsc.antt =====
-- Server/Common/Threading/MPSCQueue.h, MPSCQueueNonIntrusive: the queue of many producers and one
-- consumer, as steps on shared memory. `new Node` and the exchange of `_head` are one step, since no
-- one sees a node before; nodes are named in the order of their exchange and no name is used again.
pub mod Inv
pub mod Begin
pub mod Finish
pub mod Take
pub mod Fifo
use mmo_wow.Prelude.{
  ℕ, zero, suc, ◌+◌, ◌≡◌, List, [], ◌∷◌, ◌++◌, Option, none, some, Result, ok, err, null_access,
  ◌>>=◌, deref,
}
pub use mmo_wow.Prelude.{set}

pub record Node : Type 0 where
  pub data_of : ℕ
  pub next_of : Option ℕ

-- the memory, with `none` where no node lives
pub record Mpsc : Type 0 where
  pub heap : ℕ → Option Node
  pub head : ℕ
  pub tail : ℕ
  pub fresh : ℕ

-- `MPSCQueueNonIntrusive()`
unfoldable pub initial : Mpsc
initial = record {
  heap = set (λ a. none) 0 (some (record { data_of = 0; next_of = none }));
  head = 0;
  tail = 0;
  fresh = 1;
}

-- `Enqueue` up to the exchange: the former head, the new node, and the memory
unfoldable pub exchange_head : ℕ → Mpsc → (ℕ × ℕ) × Mpsc
exchange_head input q = (
  (q.head, q.fresh),
  record q {
    heap = set q.heap q.fresh (some (record { data_of = input; next_of = none }));
    head = q.fresh;
    fresh = suc q.fresh;
  },
)

-- `prevHead->Next.store(node)`
unfoldable pub store_next : ℕ × ℕ → Mpsc → Result Mpsc
store_next (prev, node) q = do
  n ← deref (q.heap prev)
  ok (record q { heap = set q.heap prev (some (record n { next_of = some node })) })

-- `Dequeue`
unfoldable pub dequeue : Mpsc → Result (Option ℕ × Mpsc)
dequeue q = do
  t ← deref (q.heap q.tail)
  elim t.next_of [
    | none ↦ ok (none, q)
    | some next ↦ (do
      n ← deref (q.heap next)
      ok (some n.data_of, record q { tail = next; heap = set q.heap q.tail none }))
  ]

-- The queue and its producers: a thread in `Enqueue` holds the former head and its node. What was
-- exchanged in and what was taken out is recorded, oldest first.
pub record World : Type 0 where
  pub queue : Mpsc
  pub threads : ℕ → Option (ℕ × ℕ)
  pub given : List ℕ
  pub taken : List ℕ

unfoldable pub start : World
unfolding initial
start = record { queue = initial; threads = λ t. none; given = []; taken = [] }

pub data Step (w : World) : World → Type 0 where
  begin :
      (t input : ℕ)
      → w.threads t ≡ none
      → Step w (record w {
        queue = (exchange_head input w.queue).1;
        threads = set w.threads t (some (exchange_head input w.queue).0);
        given = w.given ++ (input ∷ []);
      })
  finish :
      (t : ℕ) (held : ℕ × ℕ) (q : Mpsc)
      → w.threads t ≡ some held
      → store_next held w.queue ≡ ok q
      → Step w (record w { queue = q; threads = set w.threads t none })
  take_out :
      (v : ℕ) (q : Mpsc)
      → dequeue w.queue ≡ ok (some v, q)
      → Step w (record w { queue = q; taken = w.taken ++ (v ∷ []) })
  miss : (q : Mpsc) → dequeue w.queue ≡ ok (none, q) → Step w (record w { queue = q })

pub data Reach : World → Type 0 where
  here : Reach start
  next : {w u : World} → Reach w → Step w u → Reach u
