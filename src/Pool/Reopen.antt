-- ===== src/Pool/Reopen.antt =====
-- A pool that is opened again after it could not be opened.
use mmo_wow.Prelude.{
  ℕ, zero, suc, ◌+◌, ◌≡◌, ◌<◌, refl, ap, ◌∙◌, true, [], ◌∷◌, ◌++◌, arith, ◌==◌, if◌then◌else◌,
  length, length-append,
}
use mmo_wow.Workers.{Pcq, cancel, World}
use mmo_wow.Workers.Steps.{Later}
use mmo_wow.Workers.Closing.{closed-forever}
use mmo_wow.Pool.{
  Pool, destroy_workers, opened_connection, Server, later, open_async, open_synch, open_pool,
}

open_async-ok :
    (n : ℕ) (s : Server) (p : Pool)
    → ((i : ℕ) → s.error_of i ≡ 0)
    → ((i : ℕ) → s.is_supported i ≡ true)
    → ((open_async n s p).0 ≡ 0)
      × ((open_async n s p).1.queue ≡ p.queue)
      × ((open_async n s p).1.synch_threads ≡ p.synch_threads)
      × (length (open_async n s p).1.async_connections ≡ length p.async_connections + n)
unfolding open_async
open_async-ok zero s p e v = (refl, refl, refl, omega arith)
open_async-ok (suc n) s p e v =
    let q = record p { async_connections = p.async_connections ++ (opened_connection ∷ []) } in
    let r = open_async-ok n (later s) q (λ i. e (suc i)) (λ i. v (suc i)) in
    let h : open_async (suc n) s p ≡ open_async n (later s) q = ground (arith, e 0, v 0) in
    (
      ap (λ x. x.0) h ∙ r.0,
      ap (λ x. x.1.queue) h ∙ r.1,
      ap (λ x. x.1.synch_threads) h ∙ r.2,
      omega (
        arith,
        ap (λ x. length x.1.async_connections) h,
        r.3,
        length-append p.async_connections (opened_connection ∷ []),
      ),
    )

open_synch-ok :
    (n : ℕ) (s : Server) (p : Pool)
    → ((i : ℕ) → s.error_of i ≡ 0)
    → ((i : ℕ) → s.is_supported i ≡ true)
    → ((open_synch n s p).0 ≡ 0) × ((open_synch n s p).1.queue ≡ p.queue)
unfolding open_synch
open_synch-ok zero s p e v = (refl, refl)
open_synch-ok (suc n) s p e v =
    let q = record p { synch_connections = p.synch_connections ++ (opened_connection ∷ []) } in
    let r = open_synch-ok n (later s) q (λ i. e (suc i)) (λ i. v (suc i)) in
    let h : open_synch (suc n) s p ≡ open_synch n (later s) q = ground (arith, e 0, v 0) in
    (ap (λ x. x.0) h ∙ r.0, ap (λ x. x.1.queue) h ∙ r.1)

open_pool-ok :
    (a s : Server) (p : Pool)
    → ((i : ℕ) → a.error_of i ≡ 0)
    → ((i : ℕ) → a.is_supported i ≡ true)
    → ((i : ℕ) → s.error_of i ≡ 0)
    → ((i : ℕ) → s.is_supported i ≡ true)
    → ((open_pool a s p).0 ≡ 0) × ((open_pool a s p).1.queue ≡ p.queue)
unfolding open_pool
open_pool-ok a s p ea va es vs =
    let r = open_async-ok p.async_threads a p ea va in
    let q = (open_async p.async_threads a p).1 in
    let u = open_synch-ok p.synch_threads s q es vs in
    let h : open_pool a s p ≡ open_synch p.synch_threads s q = ground (arith, r.0) in
    (ap (λ x. x.0) h ∙ u.0, ap (λ x. x.1.queue) h ∙ u.1 ∙ r.1)

-- A pool whose first asynchronous connection cannot be opened has its queue shut down.
failed-shut :
    (a s : Server) (p : Pool)
    → 0 < p.async_threads
    → 0 < a.error_of 0
    → ((open_pool a s p).0 ≡ a.error_of 0) × ((open_pool a s p).1.queue.shutdown ≡ true)
unfolding open_pool open_async destroy_workers cancel
failed-shut a s p h e = first p.async_threads h
  where
    first :
        (n : ℕ)
        → 0 < n
        → let r = open_async n a p in
          ((if r.0 == 0 then open_synch p.synch_threads s r.1 else r).0 ≡ a.error_of 0)
          × ((if r.0 == 0 then open_synch p.synch_threads s r.1 else r).1.queue.shutdown ≡ true)
    first zero h = absurd (omega (arith, h))
    first (suc n) h = (ground (arith, e), ground (arith, e))

-- When the first asynchronous connection of a pool cannot be opened and the pool is then opened
-- again without any error, as after the creation of its database, both calls of `Open` say so; but
-- the workers on its queue never take an operation out of it, whatever is pushed.
pub reopened-idle :
    (a s b t : Server) (p : Pool) (w u : World)
    → 0 < p.async_threads
    → 0 < a.error_of 0
    → ((i : ℕ) → b.error_of i ≡ 0)
    → ((i : ℕ) → b.is_supported i ≡ true)
    → ((i : ℕ) → t.error_of i ≡ 0)
    → ((i : ℕ) → t.is_supported i ≡ true)
    → w.queue ≡ (open_pool b t (open_pool a s p).1).1.queue
    → Later w u
    → ((open_pool a s p).0 ≡ a.error_of 0)
      × ((open_pool b t (open_pool a s p).1).0 ≡ 0)
      × (u.taken ≡ w.taken)
reopened-idle a s b t p w u h e eb vb et vt q l =
    let f = failed-shut a s p h e in
    let o = open_pool-ok b t (open_pool a s p).1 eb vb et vt in
    (f.0, o.0, (closed-forever (ap (λ (x : Pcq). x.shutdown) (q ∙ o.1) ∙ f.1) l).1)
