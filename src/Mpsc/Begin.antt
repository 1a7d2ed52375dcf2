-- ===== src/Mpsc/Begin.antt =====
-- A producer exchanges its node in.
use mmo_wow.Prelude.{
  ℕ, suc, ◌-◌, ◌≡◌, ◌≤◌, refl, sym, ap, ◌∙◌, inl, inr, [], ◌∷◌, ◌++◌, none, some, ◌==◌, ==_iff,
  arith, get_or, Bool-cases, length-append, get_or-append_left, get_or-append_last,
  take-append_within,
}
use mathlib.Core.Path.{subst}
use mmo_wow.Mpsc.Inv.{Linked, linked, newest, held, Cell, Held, Inv}
use mmo_wow.Mpsc.{Node, set, exchange_head, World}

head-open : (w : World) (n : Node) → Linked w w.queue.head n → n.next_of ≡ none
head-open w n (linked e l) = absurd (omega arith)
head-open w n (newest e l) = e
head-open w n (held t e f) = e

-- the world after a producer has exchanged its node in
abbrev pub began : World → ℕ → ℕ → World
began w t input = record w {
  queue = (exchange_head input w.queue).1;
  threads = set w.threads t (some (exchange_head input w.queue).0);
  given = w.given ++ (input ∷ []);
}

module _ (w : World) (i : Inv w) (t input : ℕ) (free : w.threads t ≡ none) where
  began-old_link :
      (a : ℕ) (n : Node) → a ≤ w.queue.head → Linked w a n → Linked (began w t input) a n
  unfolding exchange_head
  began-old_link a n h (linked e l) = linked e (omega (arith, i.names, l))
  began-old_link a n h (newest e l) = held t e (ground (arith, i.names, l))
  began-old_link a n h (held u e f) = held u e (ground (arith, free, f))

  began-old : (a : ℕ) → w.queue.tail ≤ a → a ≤ w.queue.head → Cell (began w t input) a
  unfolding exchange_head
  began-old a l h =
      let c = i.cells a l h in
      record {
        node = c.node;
        lives = ground (arith, c.lives, i.names);
        link = began-old_link a c.node h c.link;
        holds = λ k.
            c.holds k
            ∙ sym
                (get_or-append_left w.given (input ∷ []) (a - 1) 0 (omega (arith, i.count, k, h)));
      }

  began-new : Cell (began w t input) (suc w.queue.head)
  unfolding exchange_head
  began-new = record {
    node = record { data_of = input; next_of = none };
    lives = ground (arith, i.names);
    link = newest refl (sym i.names);
    holds = λ k. sym (
        ap (λ j. get_or (w.given ++ (input ∷ [])) j 0) (omega (arith, i.count))
        ∙ get_or-append_last w.given input 0);
  }

  began-Held : (p n : ℕ) → Held w p n → Held (began w t input) p n
  unfolding exchange_head
  began-Held p n h = record {
    after = h.after;
    from_tail = h.from_tail;
    below = omega (arith, h.below, i.names);
    node = h.node;
    lives = ground (arith, h.lives, h.below, i.names);
    open_end = h.open_end;
  }

  began-own : Held (began w t input) w.queue.head w.queue.fresh
  unfolding exchange_head
  began-own =
      let c = i.cells w.queue.head i.order (omega arith) in
      record {
        after = i.names;
        from_tail = i.order;
        below = omega (arith, i.names);
        node = c.node;
        lives = ground (arith, c.lives, i.names);
        open_end = head-open w c.node c.link;
      }

  began-cells : (a : ℕ) → w.queue.tail ≤ a → a ≤ suc w.queue.head → Cell (began w t input) a
  began-cells a l h = elim (Bool-cases (a == suc w.queue.head)) [
    | inl e ↦ subst (Cell (began w t input)) (sym ((==_iff a (suc w.queue.head)).0 e)) began-new
    | inr e ↦ began-old a l (ground (arith, h, e))
  ]

  began-locals :
      (u p n : ℕ) → (began w t input).threads u ≡ some (p, n) → Held (began w t input) p n
  unfolding exchange_head
  began-locals u p n e = elim (Bool-cases (u == t)) [
    | inl k ↦ subst (λ (x : ℕ × ℕ). Held (began w t input) x.0 x.1) (ground (arith, e, k)) began-own
    | inr k ↦ began-Held p n (i.locals u p n (ground (arith, e, k)))
  ]

  began-alone :
      (u v p n m : ℕ)
      → (began w t input).threads u ≡ some (p, n)
      → (began w t input).threads v ≡ some (p, m)
      → u ≡ v
  unfolding exchange_head
  began-alone u v p n m e f = elim (Bool-cases (u == t)) [
    | inl k ↦ elim (Bool-cases (v == t)) [
      | inl l ↦ ground (arith, k, l)
      | inr l ↦
          (let h = i.locals v p m (ground (arith, f, l)) in absurd (ground (arith, e, k, h.below)))
    ]
    | inr k ↦ elim (Bool-cases (v == t)) [
      | inl l ↦
          (let h = i.locals u p n (ground (arith, e, k)) in absurd (ground (arith, f, l, h.below)))
      | inr l ↦ i.alone u v p n m (ground (arith, e, k)) (ground (arith, f, l))
    ]
  ]

  pub began-Inv : Inv (began w t input)
  unfolding exchange_head
  began-Inv = record {
    count = omega (arith, length-append w.given (input ∷ []), i.count, i.names);
    names = refl;
    order = omega (arith, i.order, i.names);
    got =
        i.got
        ∙ sym (
            take-append_within w.queue.tail w.given (input ∷ []) (omega (arith, i.count, i.order)));
    cells = λ a l h. began-cells a l (omega (arith, h, i.names));
    locals = began-locals;
    alone = began-alone;
  }
