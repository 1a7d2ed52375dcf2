-- ===== src/Network/Counted.antt =====
-- What a network thread holds, and its count of connections.
use mmo_wow.Prelude.{
  ℕ, suc, ◌+◌, ◌≡◌, refl, sym, ap, ◌∙◌, inl, inr, Bool, true, false, List, [], ◌∷◌, ◌++◌, arith,
  length, length-append, u32, Bool-cases, if◌then◌else◌,
}
use mathlib.Core.Path.{subst}
use mmo_wow.Network.{
  SocketType, increment, decrement, NetworkThread, new_thread, add_socket, place_one, place,
  take_in, add_new_sockets, close_if_open, sweep_one, sweep, swept, update,
}

increment-u32 : (n : ℕ) → increment (u32 n) ≡ u32 (n + 1)
increment-u32 n = omega arith

decrement-u32 : (n : ℕ) → decrement (u32 (suc n)) ≡ u32 n
decrement-u32 n = omega arith

module _ {S Env : Type 0} (socket : SocketType S Env) where
  -- sockets that are closed
  unfoldable pub AreShut : List S → Type 0
  AreShut [] = Unit {0}
  AreShut (s ∷ rest) = (socket.is_open s ≡ false) × AreShut rest

  -- The count is that of the sockets, `n` of which are in neither list, and what was dropped is
  -- closed.
  pub record Counted (n : ℕ) (t : NetworkThread S) : Type 0 where
    pub count : t.connections ≡ u32 (n + length t.sockets)
    pub shut : AreShut t.dropped

  -- a thread between two steps
  abbrev pub Settled : NetworkThread S → Type 0
  Settled t = Counted (length t.new_sockets) t

  close_if_open-shut : (s : S) → socket.is_open (close_if_open socket s) ≡ false
  close_if_open-shut s = elim (Bool-cases (socket.is_open s)) [
    | inl e ↦
        subst (λ b. socket.is_open (if b then socket.close_socket s else s) ≡ false) (sym e)
          (socket.closes s)
    | inr e ↦ subst (λ b. socket.is_open (if b then socket.close_socket s else s) ≡ false) (sym e) e
  ]

  module _ {n : ℕ} {t : NetworkThread S} (c : Counted (suc n) t) where
    Counted-dropped :
        (s : S)
        → socket.is_open s ≡ false
        → Counted n (record t { connections = decrement t.connections; dropped = s ∷ t.dropped })
    unfolding AreShut
    Counted-dropped s e = record {
      count = ap decrement (c.count ∙ ap u32 (omega arith)) ∙ decrement-u32 (n + length t.sockets);
      shut = (e, c.shut);
    }

    Counted-kept : (s : S) → Counted n (record t { sockets = t.sockets ++ (s ∷ []) })
    Counted-kept s = record {
      count = c.count ∙ ap u32 (omega (arith, length-append t.sockets (s ∷ [])));
      shut = c.shut;
    }

  place_one-Counted :
      (n : ℕ) (b : Bool) (s : S) (t : NetworkThread S)
      → socket.is_open s ≡ b
      → Counted (suc n) t
      → Counted n (place_one socket b s t)
  unfolding place_one
  place_one-Counted n true s t e c = Counted-kept c s
  place_one-Counted n false s t e c = Counted-dropped c s e

  place-Counted :
      (xs : List S) (t : NetworkThread S) → Counted (length xs) t → Counted 0 (place socket xs t)
  unfolding place
  place-Counted [] t c = c
  place-Counted (s ∷ rest) t c =
      place-Counted rest (place_one socket (socket.is_open s) s t)
        (place_one-Counted (length rest) (socket.is_open s) s t refl c)

  sweep_one-Counted :
      (n : ℕ) (r : Bool × S) (t : NetworkThread S)
      → Counted (suc n) t
      → Counted n (sweep_one socket r t)
  unfolding sweep_one
  sweep_one-Counted n (true, s) t c = Counted-kept c s
  sweep_one-Counted n (false, s) t c =
      Counted-dropped c (close_if_open socket s) (close_if_open-shut s)

  sweep-Counted :
      (env : ℕ → Env) (xs : List S) (t : NetworkThread S)
      → Counted (length xs) t
      → Counted 0 (sweep socket env xs t)
  unfolding sweep
  sweep-Counted env [] t c = c
  sweep-Counted env (s ∷ rest) t c =
      let r = socket.update (env 0) s in
      sweep-Counted (λ i. env (suc i)) rest (sweep_one socket r t)
        (sweep_one-Counted (length rest) r t c)

  sweep-news :
      (env : ℕ → Env) (xs : List S) (t : NetworkThread S)
      → (sweep socket env xs t).new_sockets ≡ t.new_sockets
  unfolding sweep sweep_one
  sweep-news env [] t = refl
  sweep-news env (s ∷ rest) t =
      sweep-news (λ i. env (suc i)) rest (sweep_one socket (socket.update (env 0) s) t)
      ∙ same (socket.update (env 0) s) t
    where
      same :
          (r : Bool × S) (t : NetworkThread S) → (sweep_one socket r t).new_sockets ≡ t.new_sockets
      same (true, s) t = refl
      same (false, s) t = refl

  -- After `AddNewSockets` no socket is new.
  take_in-Counted :
      (xs : List S) (t : NetworkThread S)
      → t.new_sockets ≡ xs
      → Counted (length xs) t
      → Counted 0 (take_in socket xs t) × ((take_in socket xs t).new_sockets ≡ [])
  unfolding take_in
  take_in-Counted [] t e c = (c, e)
  take_in-Counted (s ∷ rest) t e c =
      let p = place-Counted (s ∷ rest) t c in (record { count = p.count; shut = p.shut }, refl)

  swept-Settled :
      (env : ℕ → Env) (t : NetworkThread S)
      → Settled t
      → Settled (swept socket env (add_new_sockets socket t))
  unfolding swept add_new_sockets
  swept-Settled env t c =
      let (p, e) = take_in-Counted t.new_sockets t refl c in
      let u = take_in socket t.new_sockets t in
      let s =
        sweep-Counted env u.sockets (record u { sockets = [] })
          (record { count = p.count ∙ ap u32 (omega arith); shut = p.shut }) in
      subst (λ n. Counted n (swept socket env u))
        (ap length (sym (sweep-news env u.sockets (record u { sockets = [] }) ∙ e))) s

  pub update-Settled :
      (env : ℕ → Env) (t : NetworkThread S) → Settled t → Settled (update socket env t)
  unfolding update
  update-Settled env t c = stop_or_go t.stopped
    where
      stop_or_go :
          (b : Bool) → Settled (if b then t else swept socket env (add_new_sockets socket t))
      stop_or_go true = c
      stop_or_go false = swept-Settled env t c

  pub add_socket-Settled :
      (s : S) (t : NetworkThread S) → Settled t → Settled (add_socket socket s t)
  unfolding add_socket
  add_socket-Settled s t c = record {
    count =
        ap increment c.count
        ∙ increment-u32 (length t.new_sockets + length t.sockets)
        ∙ ap u32 (omega (arith, length-append t.new_sockets (s ∷ [])));
    shut = c.shut;
  }

  pub new_thread-Settled : Settled (new_thread socket)
  unfolding new_thread AreShut
  new_thread-Settled = record { count = refl; shut = tt }
