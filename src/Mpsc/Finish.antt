-- ===== src/Mpsc/Finish.antt =====
-- A producer links its node behind the one that was the newest before it.
use mmo_wow.Prelude.{ℕ, ◌≡◌, ◌≢◌, ◌≤◌, ap, ◌∙◌, inl, inr, none, some, ok, ◌==◌, arith, Bool-cases}
use mmo_wow.Mpsc.Inv.{Linked, linked, newest, held, Cell, Held, Inv}
use mmo_wow.Mpsc.{Node, Mpsc, set, store_next, World}

-- the world after a thread has linked its node
abbrev pub finished : World → ℕ → Mpsc → World
finished w t q = record w { queue = q; threads = set w.threads t none }

-- the memory with the link
abbrev pub with_link : Mpsc → ℕ → ℕ → Node → Mpsc
with_link q p n node = record q { heap = set q.heap p (some (record node { next_of = some n })) }

pub store_next-eq :
    (q : Mpsc) (p n : ℕ) (node : Node)
    → q.heap p ≡ some node
    → store_next (p, n) q ≡ ok (with_link q p n node)
unfolding store_next
store_next-eq q p n node h = rw h

module _ (w : World) (i : Inv w) (t p n : ℕ) (own : w.threads t ≡ some (p, n))
    (h : Held w p n) where
  abbrev after : World
  after = finished w t (with_link w.queue p n h.node)

  finished-old_link : (a : ℕ) (m : Node) → a ≢ p → Linked w a m → Linked after a m
  finished-old_link a m ne (linked e l) = linked e l
  finished-old_link a m ne (newest e l) = newest e l
  finished-old_link a m ne (held u e f) = held u e (ground (arith, own, f, ne))

  finished-cell : (a : ℕ) → w.queue.tail ≤ a → a ≤ w.queue.head → Cell after a
  finished-cell a l k =
      let c = i.cells a l k in
      elim (Bool-cases (a == p)) [
        | inl e ↦ record {
          node = record h.node { next_of = some n };
          lives = ground (arith, e);
          link = linked (ground (arith, e, h.after)) (ground (arith, e, h.below));
          holds = λ j. ground (arith, c.holds j, c.lives, h.lives, e);
        }
        | inr e ↦ record {
          node = c.node;
          lives = ground (arith, e, c.lives);
          link = finished-old_link a c.node (ground (arith, e)) c.link;
          holds = c.holds;
        }
      ]

  finished-locals : (u x y : ℕ) → after.threads u ≡ some (x, y) → Held after x y
  finished-locals u x y e =
      let ne : u ≢ t = ground (arith, e) in
      let f : w.threads u ≡ some (x, y) = ground (arith, e) in
      let g = i.locals u x y f in
      let differ : x ≢ p =
        λ (same : x ≡ p). ne (i.alone u t p y n (f ∙ ap (λ z. some (z, y)) same) own) in
      record {
        after = g.after;
        from_tail = g.from_tail;
        below = g.below;
        node = g.node;
        lives = ground (arith, g.lives, differ);
        open_end = g.open_end;
      }

  pub finished-Inv : Inv after
  finished-Inv = record {
    count = i.count;
    names = i.names;
    order = i.order;
    got = i.got;
    cells = finished-cell;
    locals = finished-locals;
    alone = λ u v x y z e f. i.alone u v x y z (ground (arith, e)) (ground (arith, f));
  }
