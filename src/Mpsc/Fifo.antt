-- ===== src/Mpsc/Fifo.antt =====
-- What the consumer of the queue gets, in whatever order the steps of producers and consumer come.
use mmo_wow.Prelude.{
  ℕ, suc, ◌≡◌, ◌<◌, refl, sym, ap, ◌∙◌, ◌⊎◌, inl, inr, List, [], ◌∷◌, ◌++◌, Option, none, some, ok,
  arith, length, drop, take_append_drop, get_or, length-append, length-take,
}
use mathlib.Core.Path.{subst}
use mmo_wow.Mpsc.Begin.{began-Inv}
use mmo_wow.Mpsc.Finish.{finished, with_link, store_next-eq, finished-Inv}
use mmo_wow.Mpsc.Take.{dequeue-linked, dequeue-open, dequeue-value, took-Inv}
use mmo_wow.Mpsc.Inv.{Linked, linked, newest, held, Inv, Inv-start}
use mmo_wow.Mpsc.{
  Node, Mpsc, set, store_next, dequeue, World, Step, begin, finish, take_out, miss, Reach, here,
  next,
}

finish-Inv :
    (w : World) (t : ℕ) (own : ℕ × ℕ) (q : Mpsc)
    → Inv w
    → w.threads t ≡ some own
    → store_next own w.queue ≡ ok q
    → Inv (finished w t q)
finish-Inv w t (p, n) q i own e =
    let h = i.locals t p n own in
    let f : with_link w.queue p n h.node ≡ q =
      ground (arith, e, store_next-eq w.queue p n h.node h.lives) in
    subst (λ u. Inv (finished w t u)) f (finished-Inv w i t p n own h)

-- The two ends of the queue: linked, or with nothing to take.
tail-cases :
    (w : World) (i : Inv w)
    → ((w.queue.tail < w.queue.head)
        × ((i.cells w.queue.tail (omega arith) i.order).node.next_of ≡ some (suc w.queue.tail)))
      ⊎ ((i.cells w.queue.tail (omega arith) i.order).node.next_of ≡ none)
tail-cases w i = go (i.cells w.queue.tail (omega arith) i.order).link
  where
    go :
        {n : Node}
        → Linked w w.queue.tail n
        → ((w.queue.tail < w.queue.head) × (n.next_of ≡ some (suc w.queue.tail)))
          ⊎ (n.next_of ≡ none)
    go (linked e l) = inl (l, e)
    go (newest e l) = inr e
    go (held t e f) = inr e

take-Inv :
    (w : World) (v : ℕ) (q : Mpsc)
    → Inv w
    → dequeue w.queue ≡ ok (some v, q)
    → Inv (record w { queue = q; taken = w.taken ++ (v ∷ []) })
take-Inv w v q i e = elim (tail-cases w i) [
  | inr f ↦ ground (arith, e, dequeue-open w i f)
  | inl (l, f) ↦
      (let g = dequeue-linked w i l f in
        let x : record w.queue {
          tail = suc w.queue.tail;
          heap = set w.queue.heap w.queue.tail none;
        }
            ≡ q =
          ground (arith, e, g) in
        subst (λ u. Inv (record w { queue = u; taken = w.taken ++ (v ∷ []) })) x
          (took-Inv w i l f v (ground (arith, e, g))))
]

Step-Inv : {w u : World} → Inv w → Step w u → Inv u
Step-Inv {w} i (begin t input e) = began-Inv w i t input e
Step-Inv {w} i (finish t own q e f) = finish-Inv w t own q i e f
Step-Inv {w} i (take_out v q e) = take-Inv w v q i e
Step-Inv {w} i (miss q e) = elim (tail-cases w i) [
  | inr f ↦ subst (λ u. Inv (record w { queue = u })) (ground (arith, e, dequeue-open w i f)) i
  | inl (l, f) ↦ ground (arith, e, dequeue-linked w i l f)
]

reached-Inv : {w : World} → Reach w → Inv w
reached-Inv here = Inv-start
reached-Inv (next r st) = Step-Inv (reached-Inv r) st

-- Whatever the order of the steps, the values that were taken out are the first of those that were
-- exchanged in, in the same order.
pub taken-prefix : {w : World} → Reach w → (rest : List ℕ) × (w.given ≡ w.taken ++ rest)
taken-prefix {w} r = (
  drop w.queue.tail w.given,
  sym (
      ap (λ xs. xs ++ drop w.queue.tail w.given) (reached-Inv r).got
      ∙ take_append_drop w.queue.tail w.given),
)

-- A call of `Dequeue` touches no memory that was freed: it has a result, whatever the order of the
-- steps before.
pub dequeue-safe : {w : World} → Reach w → (r : Option ℕ × Mpsc) × (dequeue w.queue ≡ ok r)
dequeue-safe {w} r =
    let i = reached-Inv r in
    elim (tail-cases w i) [
      | inr f ↦ (_, dequeue-open w i f)
      | inl (l, f) ↦ (_, dequeue-linked w i l f)
    ]

-- The node to which a thread in `Enqueue` links its own is never freed before: the store has a
-- result.
pub store_next-safe :
    {w : World} (t : ℕ) (own : ℕ × ℕ)
    → Reach w
    → w.threads t ≡ some own
    → (q : Mpsc) × (store_next own w.queue ≡ ok q)
store_next-safe {w} t own r e =
    let h = (reached-Inv r).locals t own.0 own.1 e in
    (_, store_next-eq w.queue own.0 own.1 h.node h.lives)

get_or-append_at :
    (xs : List ℕ) (v : ℕ) (rest : List ℕ) → get_or (xs ++ (v ∷ rest)) (length xs) 0 ≡ v
get_or-append_at [] v rest = refl
get_or-append_at (x ∷ xs) v rest = get_or-append_at xs v rest

open_or_Linked :
    (w : World) (i : Inv w)
    → ((t : ℕ) → w.threads t ≡ none)
    → w.queue.tail < w.queue.head
    → {n : Node} → Linked w w.queue.tail n
    → n.next_of ≡ some (suc w.queue.tail)
open_or_Linked w i quiet l (linked e _) = e
open_or_Linked w i quiet l (newest e k) = absurd (omega arith)
open_or_Linked w i quiet l (held t e f) = ground (arith, quiet t, f)

-- While no thread is in `Enqueue`, `Dequeue` yields the oldest value that is not taken out.
pub dequeue-quiet :
    {w : World} (v : ℕ) (rest : List ℕ)
    → Reach w
    → ((t : ℕ) → w.threads t ≡ none)
    → w.given ≡ w.taken ++ (v ∷ rest)
    → (q : Mpsc) × (dequeue w.queue ≡ ok (some v, q))
dequeue-quiet {w} v rest r quiet e =
    let i = reached-Inv r in
    let c = i.cells w.queue.tail (omega arith) i.order in
    let len : length w.taken ≡ w.queue.tail =
      omega (arith, ap length i.got, length-take w.queue.tail w.given, i.count, i.order) in
    let l : w.queue.tail < w.queue.head =
      omega (arith, ap length e, length-append w.taken (v ∷ rest), len, i.count) in
    let f = open_or_Linked w i quiet l c.link in
    let d : get_or w.given w.queue.tail 0 ≡ v =
      ap (λ j. get_or w.given j 0) (sym len)
      ∙ ap (λ xs. get_or xs (length w.taken) 0) e
      ∙ get_or-append_at w.taken v rest in
    let q : Mpsc = record w.queue {
      tail = suc w.queue.tail;
      heap = set w.queue.heap w.queue.tail none;
    } in
    (q, dequeue-value w i l f ∙ ap (λ (x : ℕ). ok (some x, q)) d)
