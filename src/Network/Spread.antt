-- ===== src/Network/Spread.antt =====
-- The thread that an accepted socket goes to, and what each thread counts.
use mmo_wow.Prelude.{
  ℕ, ◌+◌, ◌^◌, ◌≡◌, ◌≤◌, ◌<◌, refl, sym, ap, ◌⊎◌, inl, inr, false, List, [], ◌∷◌, ◌++◌, Option,
  none, some, arith, length, u32, set-same, append-nil,
}
use mathlib.Core.Path.{subst}
use mmo_wow.Network.{
  SocketType, NetworkThread, add_socket, SocketMgr, Accepted, failed, not_started, started,
}
use mmo_wow.Network.Counted.{Settled, AreShut}
use mmo_wow.Network.Fewest.{select-Least}
use mmo_wow.Network.Server.{
  get_socket_for_accept, async_accept, on_socket_open, accept_callback, accept_again, accepted, Up,
}
use mmo_wow.Network.Sound.{
  Sound, selected-in_range, accept_callback-Settled, accept_callback-same, Up-Sound,
}

module _ {S Env : Type 0} (socket : SocketType S Env) where
  -- the thread of the accept that is under way, if there is one
  abbrev pub AwaitsThread : SocketMgr S → Type 0
  AwaitsThread m =
      (m.acceptor.armed ≡ none)
      ⊎ ((k : ℕ) × (m.acceptor.armed ≡ some k) × (k < m.thread_count) × (k < m.created))

  Sound-AwaitsThread :
      (m : SocketMgr S) (o : Option ℕ) → m.acceptor.armed ≡ o → Sound socket m → AwaitsThread m
  Sound-AwaitsThread m none e s = inl e
  Sound-AwaitsThread m (some k) e s =
      inr (k, e, s.in_range k e, omega (arith, s.in_range k e, s.fits))

  -- While the network is up, each thread counts the sockets that it holds, new or not, modulo
  -- 2 ^ 32, and what it dropped is closed; the thread for which an accept is under way, which the
  -- accepted socket goes to, is one of the threads, and it is within the array that was created.
  pub Up-counted :
      {m : SocketMgr S} (i : ℕ)
      → Up socket m
      → ((m.threads i).connections
          ≡ u32 (length (m.threads i).new_sockets + length (m.threads i).sockets))
        × AreShut socket (m.threads i).dropped
        × AwaitsThread m
  Up-counted {m} i up =
      let s = Up-Sound socket up in
      ((s.settled i).count, (s.settled i).shut, Sound-AwaitsThread m m.acceptor.armed refl s)

  -- the sockets of a thread
  abbrev pub held : NetworkThread S → ℕ
  held t = length t.new_sockets + length t.sockets

  -- the socket that an accept gives, if any
  abbrev pub given : Accepted S → List S
  given failed = []
  given not_started = []
  given (started sock) = sock ∷ []

  -- the state after the handler: thread `i` has the socket, and the next accept is for thread `k`
  pub record Spread (outcome : Accepted S) (i : ℕ) (m u : SocketMgr S) (k : ℕ) : Type 0 where
    pub handed : (u.threads i).new_sockets ≡ (m.threads i).new_sockets ++ given outcome
    pub next : u.acceptor.armed ≡ some k
    pub exists : k < m.thread_count
    pub fewest : (j : ℕ) → j < m.thread_count → held (u.threads k) ≤ held (u.threads j)

  accept_callback-handed :
      (outcome : Accepted S) (i : ℕ) (m : SocketMgr S)
      → ((accept_callback socket outcome i m).threads i).new_sockets
        ≡ (m.threads i).new_sockets ++ given outcome
  unfolding accept_callback on_socket_open add_socket
  accept_callback-handed failed i m = sym (append-nil (m.threads i).new_sockets)
  accept_callback-handed not_started i m = sym (append-nil (m.threads i).new_sockets)
  accept_callback-handed (started sock) i m =
      ap (λ (t : NetworkThread S). t.new_sockets)
        (set-same m.threads i (add_socket socket sock (m.threads i)))

  selected-fewest :
      (m : SocketMgr S)
      → ((k : ℕ) → Settled socket (m.threads k))
      → 0 < m.thread_count
      → ((k : ℕ) → held (m.threads k) < 2 ^ 31)
      → (j : ℕ) → j < m.thread_count
      → held (m.threads (get_socket_for_accept socket m)) ≤ held (m.threads j)
  unfolding get_socket_for_accept
  selected-fewest m s p small j h =
      let k = get_socket_for_accept socket m in
      omega (
        arith,
        (s j).count,
        (s k).count,
        small j,
        small k,
        (select-Least (λ i. (m.threads i).connections) m.thread_count p).least j h,
      )

  -- When an accept for thread `i` ends and the acceptor is open, thread `i` gets the socket, if one
  -- was started, and the next accept is for a thread that exists and that then holds no more
  -- sockets than any of the threads, while none holds 2 ^ 31.
  pub fewest-selected :
      {m : SocketMgr S} (outcome : Accepted S) (i : ℕ)
      → Up socket m
      → m.acceptor.armed ≡ some i
      → m.acceptor.closed ≡ false
      → ((k : ℕ) → held ((accepted socket outcome i m).threads k) < 2 ^ 31)
      → (k : ℕ) × Spread outcome i m (accepted socket outcome i m) k
  unfolding accepted async_accept
  fewest-selected {m} outcome i up e is_open small =
      let s = Up-Sound socket up in
      let u = accept_callback socket outcome i m in
      let (p, q) = accept_callback-same socket outcome i m in
      let z : 0 < u.thread_count = omega (arith, p, s.positive) in
      subst
        (λ c.
          ((k : ℕ) → held ((accept_again socket c u).threads k) < 2 ^ 31)
          → (k : ℕ) × Spread outcome i m (accept_again socket c u) k)
        (sym is_open)
        (λ few. (
          get_socket_for_accept socket u,
          record {
            handed = accept_callback-handed outcome i m;
            next = refl;
            exists = omega (arith, selected-in_range socket u z, p);
            fewest = λ j h.
                selected-fewest u (accept_callback-Settled socket outcome i m s) z few j
                  (omega (arith, h, p));
          },
        ))
        small
