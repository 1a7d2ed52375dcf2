-- ===== src/Mpsc/Inv.antt =====
-- The memory of the queue between two steps: nodes from tail to head, each linked or about to be.
use mmo_wow.Prelude.{ℕ, suc, ◌-◌, ◌≡◌, ◌≤◌, ◌<◌, refl, none, some, arith, length, take, get_or}
use mmo_wow.Mpsc.{Node, initial, World, start}

-- The successor of a node: it is linked, or it is still to come, or a thread is about to link it.
pub data Linked (w : World) (a : ℕ) (n : Node) : Type 0 where
  linked : n.next_of ≡ some (suc a) → a < w.queue.head → Linked w a n
  newest : n.next_of ≡ none → a ≡ w.queue.head → Linked w a n
  held : (t : ℕ) → n.next_of ≡ none → w.threads t ≡ some (a, suc a) → Linked w a n

-- a node between tail and head
pub record Cell (w : World) (a : ℕ) : Type 0 where
  pub node : Node
  pub lives : w.queue.heap a ≡ some node
  pub link : Linked w a node
  pub holds : (w.queue.tail < a) → node.data_of ≡ get_or w.given (a - 1) 0

-- what a thread holds
pub record Held (w : World) (p n : ℕ) : Type 0 where
  pub after : n ≡ suc p
  pub from_tail : w.queue.tail ≤ p
  pub below : p < w.queue.head
  pub node : Node
  pub lives : w.queue.heap p ≡ some node
  pub open_end : node.next_of ≡ none

pub record Inv (w : World) : Type 0 where
  pub count : length w.given ≡ w.queue.head
  pub names : w.queue.fresh ≡ suc w.queue.head
  pub order : w.queue.tail ≤ w.queue.head
  pub got : w.taken ≡ take w.queue.tail w.given
  pub cells : (a : ℕ) → w.queue.tail ≤ a → a ≤ w.queue.head → Cell w a
  pub locals : (t p n : ℕ) → w.threads t ≡ some (p, n) → Held w p n
  pub alone : (t u p n m : ℕ) → w.threads t ≡ some (p, n) → w.threads u ≡ some (p, m) → t ≡ u

pub Inv-start : Inv start
unfolding start initial
Inv-start = record {
  count = refl;
  names = refl;
  order = omega arith;
  got = refl;
  cells = λ a h k. record {
    node = record { data_of = 0; next_of = none };
    lives = ground arith;
    link = newest refl (omega arith);
    holds = λ l. absurd (omega arith);
  };
  locals = λ t p n e. ground arith;
  alone = λ t u p n m e f. ground arith;
}
