-- ===== src/Network/Sound.antt =====
-- What holds of a network that is up, whatever the order of accepts and updates.
use mmo_wow.Prelude.{
  ℕ, zero, suc, ◌+◌, ◌≡◌, ◌≤◌, ◌<◌, refl, inl, inr, Bool, true, false, some, Result, ok, >>=-eq-ok,
  ◌>>=◌, not, if◌then◌else◌, arith, set, set-all, Bool-cases, both_branches, ltb, ltb→lt,
}
use mathlib.Core.Path.{subst}
use mmo_wow.Network.{
  SocketType, NetworkThread, start, stop, add_socket, update, SocketMgr, Accepted, failed,
  not_started, started,
}
use mmo_wow.Network.Counted.{Settled, update-Settled, add_socket-Settled, new_thread-Settled}
use mmo_wow.Network.Fewest.{select-Least}
use mmo_wow.Network.Server.{
  get_socket_for_accept, async_accept, with_threads, start_each, start_network, start_accepting,
  accept_if, on_socket_open, accept_callback, accept_again, accepted, close_all, Up, opened,
  accept_ends, ticks, halts,
}

module _ {S Env : Type 0} (socket : SocketType S Env) where
  pub record Sound (m : SocketMgr S) : Type 0 where
    pub settled : (i : ℕ) → Settled socket (m.threads i)
    pub positive : 0 < m.thread_count
    pub in_range : (i : ℕ) → m.acceptor.armed ≡ some i → i < m.thread_count
    pub fits : m.thread_count ≤ m.created

  pub selected-in_range :
      (m : SocketMgr S) → 0 < m.thread_count → get_socket_for_accept socket m < m.thread_count
  unfolding get_socket_for_accept
  selected-in_range m h = (select-Least (λ i. (m.threads i).connections) m.thread_count h).among

  async_accept-Sound :
      (m : SocketMgr S)
      → ((i : ℕ) → Settled socket (m.threads i))
      → 0 < m.thread_count
      → m.thread_count ≤ m.created
      → Sound (async_accept socket m)
  unfolding async_accept
  async_accept-Sound m s h f = record {
    settled = s;
    positive = h;
    in_range = λ i e. ground (arith, selected-in_range m h, e);
    fits = f;
  }

  start-Settled : (t : NetworkThread S) → Settled socket t → Settled socket (start socket t).1
  unfolding start
  start-Settled t s =
      both_branches (λ (x : Bool × NetworkThread S). Settled socket x.1) t.has_thread (false, t)
        (true, record t { has_thread = true }) s (record { count = s.count; shut = s.shut })

  -- what starting `n` threads from `i` on comes to
  record Launched (last : ℕ) (m u : SocketMgr S) : Type 0 where
    pub settled : (k : ℕ) → Settled socket (u.threads k)
    pub last_created : last ≤ u.created
    pub same_count : u.thread_count ≡ m.thread_count

  start_each-Launched :
      (n i : ℕ) (m u : SocketMgr S)
      → start_each socket n i m ≡ ok u
      → i ≤ m.created
      → ((k : ℕ) → Settled socket (m.threads k))
      → Launched (i + n) m u
  unfolding start_each
  start_each-Launched zero i m u e h s =
      let f : m ≡ u = ground (arith, e) in
      subst (Launched (i + 0) m) f
        (record { settled = s; last_created = omega (arith, h); same_count = refl })
  start_each-Launched (suc n) i m u e h s = elim (Bool-cases (ltb i m.created)) [
    | inr b ↦ absurd (ground (arith, e, b))
    | inl b ↦
        (let m' : SocketMgr S = record m {
          threads = set m.threads i (start socket (m.threads i)).1;
        } in
          let l = start_each-Launched n (suc i) m' u (ground (arith, e, b)) (ltb→lt i m.created b) (
            set-all (Settled socket) m.threads i (start socket (m.threads i)).1 s
              (start-Settled (m.threads i) (s i))) in
          record {
            settled = l.settled;
            last_created = omega (arith, l.last_created);
            same_count = l.same_count;
          })
  ]

  start_network-eq :
      (made bound : Bool) (created n : ℕ) (m v : SocketMgr S)
      → start_network socket made bound created n m ≡ ok (true, v)
      → (0 < n) × (start_each socket n 0 (with_threads socket created n) ≡ ok v)
  unfolding start_network
  start_network-eq made bound created n m v e = elim (Bool-cases (ltb 0 n)) [
    | inr b ↦ absurd (ground (arith, e, b))
    | inl b ↦ (ltb→lt 0 n b, chosen made bound (rw b at e))
  ]
    where
      launch : Result (SocketMgr S)
      launch = start_each socket n 0 (with_threads socket created n)

      refused : Result (Bool × SocketMgr S)
      refused = ok (false, m)

      chosen :
          (made bound : Bool)
          → (if not made
              then refused
              else (if not bound then refused else (launch >>= λ u. ok (true, u))))
            ≡ ok (true, v)
          → launch ≡ ok v
      chosen false b e = absurd (ground (arith, e))
      chosen true false e = absurd (ground (arith, e))
      chosen true true e =
          let (u, p, q) = >>=-eq-ok launch (λ u. ok (true, u)) e in ground (arith, p, q)

  start_accepting-eq :
      (made bound : Bool) (created n : ℕ) (m u : SocketMgr S)
      → start_accepting socket made bound created n m ≡ ok (true, u)
      → (v : SocketMgr S) × (start_network socket made bound created n m ≡ ok (true, v))
        × (async_accept socket v ≡ u)
  unfolding start_accepting
  start_accepting-eq made bound created n m u e =
      let (x, p, q) =
        >>=-eq-ok (start_network socket made bound created n m) (λ x. ok (accept_if socket x)) e in
      by_result x p q
    where
      by_result :
          (x : Bool × SocketMgr S)
          → start_network socket made bound created n m ≡ ok x
          → ok (accept_if socket x) ≡ ok (true, u)
          → (v : SocketMgr S) × (start_network socket made bound created n m ≡ ok (true, v))
            × (async_accept socket v ≡ u)
      by_result (false, v) p q = absurd (ground (arith, q))
      by_result (true, v) p q = (v, p, ground (arith, q))

  start_accepting-Sound :
      (made bound : Bool) (created n : ℕ) (m u : SocketMgr S)
      → start_accepting socket made bound created n m ≡ ok (true, u)
      → Sound u
  unfolding with_threads
  start_accepting-Sound made bound created n m u e =
      let (v, a, g) = start_accepting-eq made bound created n m u e in
      let (h, f) = start_network-eq made bound created n m v a in
      let l =
        start_each-Launched n 0 (with_threads socket created n) v f (omega arith)
          (λ k. new_thread-Settled socket) in
      subst Sound g (
        async_accept-Sound v l.settled (omega (arith, h, l.same_count))
          (omega (arith, l.last_created, l.same_count)))

  pub accept_callback-Settled :
      (outcome : Accepted S) (i : ℕ) (m : SocketMgr S)
      → Sound m
      → (j : ℕ) → Settled socket ((accept_callback socket outcome i m).threads j)
  unfolding accept_callback on_socket_open
  accept_callback-Settled failed i m s = s.settled
  accept_callback-Settled not_started i m s = s.settled
  accept_callback-Settled (started sock) i m s =
      set-all (Settled socket) m.threads i (add_socket socket sock (m.threads i)) s.settled
        (add_socket-Settled socket sock (m.threads i) (s.settled i))

  -- an accept changes no bound
  pub accept_callback-same :
      (outcome : Accepted S) (i : ℕ) (m : SocketMgr S)
      → ((accept_callback socket outcome i m).thread_count ≡ m.thread_count)
        × ((accept_callback socket outcome i m).created ≡ m.created)
  unfolding accept_callback on_socket_open
  accept_callback-same failed i m = (refl, refl)
  accept_callback-same not_started i m = (refl, refl)
  accept_callback-same (started sock) i m = (refl, refl)

  accept_again-Sound :
      (closed : Bool) (m : SocketMgr S)
      → ((i : ℕ) → Settled socket (m.threads i))
      → 0 < m.thread_count
      → m.thread_count ≤ m.created
      → Sound (accept_again socket closed m)
  accept_again-Sound false m s h f = async_accept-Sound m s h f
  accept_again-Sound true m s h f = record {
    settled = s;
    positive = h;
    in_range = λ i e. ground (arith, e);
    fits = f;
  }

  pub Up-Sound : {m : SocketMgr S} → Up socket m → Sound m
  unfolding accepted close_all stop
  Up-Sound (opened made bound created n m {u} e) = start_accepting-Sound made bound created n m u e
  Up-Sound (accept_ends {m} outcome i up e) =
      let s = Up-Sound up in
      let (p, q) = accept_callback-same outcome i m in
      accept_again-Sound m.acceptor.closed (accept_callback socket outcome i m)
        (accept_callback-Settled outcome i m s) (omega (arith, p, s.positive))
        (omega (arith, p, q, s.fits))
  Up-Sound (ticks {m} env i up h) =
      let s = Up-Sound up in
      record {
        settled =
            set-all (Settled socket) m.threads i (update socket env (m.threads i)) s.settled
              (update-Settled socket env (m.threads i) (s.settled i));
        positive = s.positive;
        in_range = s.in_range;
        fits = s.fits;
      }
  Up-Sound (halts {m} up) =
      let s = Up-Sound up in
      record {
        settled = λ i. record { count = (s.settled i).count; shut = (s.settled i).shut };
        positive = s.positive;
        in_range = s.in_range;
        fits = s.fits;
      }
