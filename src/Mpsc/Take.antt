-- ===== src/Mpsc/Take.antt =====
-- The consumer takes the oldest node.
use mmo_wow.Prelude.{
  ℕ, suc, ◌≡◌, ◌≢◌, ◌≤◌, ◌<◌, sym, ap, ◌∙◌, [], ◌∷◌, ◌++◌, none, some, ok, arith, take, get_or,
  take-suc,
}
use mmo_wow.Mpsc.Inv.{Linked, linked, newest, held, Cell, Held, Inv}
use mmo_wow.Mpsc.{Node, set, dequeue, World}

-- the world after the consumer has taken a node out
abbrev pub took : World → ℕ → World
took w v = record w {
  queue = record w.queue { tail = suc w.queue.tail; heap = set w.queue.heap w.queue.tail none };
  taken = w.taken ++ (v ∷ []);
}

module _ (w : World) (i : Inv w) where
  -- the cell of the tail
  abbrev tail_cell : Cell w w.queue.tail
  tail_cell = i.cells w.queue.tail (omega arith) i.order

  abbrev next_cell : w.queue.tail < w.queue.head → Cell w (suc w.queue.tail)
  next_cell l = i.cells (suc w.queue.tail) (omega arith) (omega (arith, l))

  -- With the link of the tail set, its successor is taken out.
  pub dequeue-linked :
      (l : w.queue.tail < w.queue.head)
      → tail_cell.node.next_of ≡ some (suc w.queue.tail)
      → dequeue w.queue
        ≡ ok (
          some (next_cell l).node.data_of,
          record w.queue { tail = suc w.queue.tail; heap = set w.queue.heap w.queue.tail none },
        )
  unfolding dequeue
  dequeue-linked l e = ground (arith, e, tail_cell.lives, (next_cell l).lives)

  pub next-value :
      (l : w.queue.tail < w.queue.head) → (next_cell l).node.data_of ≡ get_or w.given w.queue.tail 0
  next-value l = (next_cell l).holds (omega arith) ∙ ap (λ j. get_or w.given j 0) (omega arith)

  -- The value that is taken out is the one that was given at the place of the tail.
  pub dequeue-value :
      (l : w.queue.tail < w.queue.head)
      → tail_cell.node.next_of ≡ some (suc w.queue.tail)
      → dequeue w.queue
        ≡ ok (
          some (get_or w.given w.queue.tail 0),
          record w.queue { tail = suc w.queue.tail; heap = set w.queue.heap w.queue.tail none },
        )
  dequeue-value l e = ground (arith, dequeue-linked l e, next-value l)

  pub dequeue-open : tail_cell.node.next_of ≡ none → dequeue w.queue ≡ ok (none, w.queue)
  unfolding dequeue
  dequeue-open e = ground (arith, e, tail_cell.lives)

  module _ (l : w.queue.tail < w.queue.head) (e : tail_cell.node.next_of ≡ some (suc w.queue.tail))
      (v : ℕ) (d : v ≡ (next_cell l).node.data_of) where
    took-link : (a : ℕ) (m : Node) → Linked w a m → Linked (took w v) a m
    took-link a m (linked f k) = linked f k
    took-link a m (newest f k) = newest f k
    took-link a m (held u f k) = held u f k

    took-cell : (a : ℕ) → suc w.queue.tail ≤ a → a ≤ w.queue.head → Cell (took w v) a
    took-cell a g k =
        let c = i.cells a (omega arith) k in
        record {
          node = c.node;
          lives = ground (arith, c.lives, g);
          link = took-link a c.node c.link;
          holds = λ j. c.holds (omega (arith, j));
        }

    took-Held : (t p n : ℕ) → w.threads t ≡ some (p, n) → Held (took w v) p n
    took-Held t p n f =
        let g = i.locals t p n f in
        let differ : p ≢ w.queue.tail = λ (same : p ≡ w.queue.tail).
          ground (arith, same, g.lives, g.open_end, tail_cell.lives, e) in
        record {
          after = g.after;
          from_tail = ground (arith, g.from_tail, differ);
          below = g.below;
          node = g.node;
          lives = ground (arith, g.lives, differ);
          open_end = g.open_end;
        }

    pub took-Inv : Inv (took w v)
    took-Inv = record {
      count = i.count;
      names = i.names;
      order = omega (arith, l);
      got =
          ap (λ xs. xs ++ (v ∷ [])) i.got
          ∙ ap (λ x. take w.queue.tail w.given ++ (x ∷ [])) (d ∙ next-value l)
          ∙ sym (take-suc w.queue.tail w.given 0 (omega (arith, i.count, l)));
      cells = took-cell;
      locals = took-Held;
      alone = i.alone;
    }
