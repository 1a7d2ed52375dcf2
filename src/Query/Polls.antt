-- ===== src/Query/Polls.antt =====
-- The life of a query: built by the public operations, its results come, it is moved, and it is
-- polled until it says that it is complete.
use mmo_wow.Prelude.{
  ℕ, zero, suc, ◌≡◌, ◌≤◌, refl, sym, ap, ◌∙◌, ◌⊎◌, inl, inr, Bool, true, false, List, [], ◌∷◌,
  Option, none, some, Result, ok, err, out_of_bounds, assertion, null_access, inactive_member,
  invalid_value, division_by_zero, no_contents, position, ◌>>=◌, arith, List-cases, length,
  length-append, >>=-eq-ok, arith,
}
use mathlib.Core.Path.{subst}
use mmo_wow.Query.{
  Future, Member, string, prepared, active_member, QueryCallbackData, QueryCallback, string_query,
  prepared_query, move_construct, move_assign, arrive, arrived, Action, act, ready_result,
  invoke_with, invoke_on, invoke_if_ready,
}
use mmo_wow.Query.Typed.{
  Only, Only->>=, Only-active_member, is_prepared_member, AllTyped, IsFor, WellTyped,
}
use mmo_wow.Query.Moves.{move_construct-WellTyped, move_assign-WellTyped}
use mmo_wow.Query.Acts.{Grown, act-Grown, Only-weaken, adds, adds_of}
use mmo_wow.Query.Chain.{Waiting, Called, invoke_with-Called}

is_prepared_member-arrived :
    (m : Member (Option Future)) → is_prepared_member (arrived m) ≡ is_prepared_member m
unfolding arrived is_prepared_member
is_prepared_member-arrived (string f) = refl
is_prepared_member-arrived (prepared f) = refl

active_member-arrived :
    (b : Bool) (m : Member (Option Future)) (f : Future)
    → active_member b m ≡ ok (some f)
    → active_member b (arrived m) ≡ ok (some (record f { is_ready = true }))
unfolding active_member arrived
active_member-arrived true (string o) f e = absurd (ground (arith, e))
active_member-arrived true (prepared none) f e = absurd (ground (arith, e))
active_member-arrived true (prepared (some g)) f e = ground (arith, e)
active_member-arrived false (string none) f e = absurd (ground (arith, e))
active_member-arrived false (string (some g)) f e = ground (arith, e)
active_member-arrived false (prepared o) f e = absurd (ground (arith, e))

WellTyped-arrive : (q : QueryCallback) → WellTyped q → WellTyped (arrive q)
unfolding arrive
WellTyped-arrive q w = record {
  alive = is_prepared_member-arrived q.member ∙ w.alive;
  each = w.each;
  first = w.first;
}

still_waits : (d : Bool) (r : QueryCallback) → d ≡ false → (d ≡ true) ⊎ Waiting r → Waiting r
still_waits d r z (inl k) = absurd (ground (arith, z, k))
still_waits d r z (inr w) = w

-- a value, or a failed ASSERT
unfoldable pub is_asserted : {A : Type 0} → Result A → Bool
is_asserted (ok a) = true
is_asserted (err assertion) = true
is_asserted (err null_access) = false
is_asserted (err out_of_bounds) = false
is_asserted (err inactive_member) = false
is_asserted (err invalid_value) = false
is_asserted (err division_by_zero) = false
is_asserted (err no_contents) = false
is_asserted (err (position a b c d)) = false

Only-is_asserted : {A : Type 0} (P : A → Type 0) (r : Result A) → Only P r → is_asserted r ≡ true
unfolding Only is_asserted
Only-is_asserted P (ok a) h = refl
Only-is_asserted P (err e) h = ap (λ e. is_asserted {A = ℕ} (err e)) h

module _ (body : ℕ → ℕ → List Action) where
  invoke-typed :
      (q : QueryCallback) (front : QueryCallbackData) (rest : List QueryCallbackData)
      → WellTyped q
      → q.callbacks ≡ front ∷ rest
      → Only (λ x. x.0 ≡ false → WellTyped x.1) (invoke_if_ready body q)
  unfolding invoke_if_ready Only
  invoke-typed q front rest w e =
      Only-active_member (λ x. x.0 ≡ false → WellTyped x.1) q.is_prepared q.member _ w.alive
        (λ future f. on (ready_result future))
    where
      on : (o : Option ℕ) → Only (λ x. x.0 ≡ false → WellTyped x.1) (invoke_on body o q)
      on none = λ z. w
      on (some result) =
          Only-weaken (Called body result front rest) (λ x. x.0 ≡ false → WellTyped x.1)
            (invoke_with body result q q.callbacks)
            (invoke_with-Called body result q w front rest e)
            (λ x c z. (still_waits x.0 x.1 z c.2.again).typed)

  -- A query from its construction on, up to a poll that completes it.
  pub data Life : QueryCallback → Type 0 where
    with_string : (f : Future) → Life (string_query f)
    with_prepared : (f : Future) → Life (prepared_query f)
    acted : {q r : QueryCallback} (a : Action) → Life q → act a q ≡ ok r → Life r
    came : {q : QueryCallback} → Life q → Life (arrive q)
    polled : {q r : QueryCallback} → Life q → invoke_if_ready body q ≡ ok (false, r) → Life r
    moved : {q r : QueryCallback} → Life q → move_construct q ≡ ok r → Life r
    assigned : {p q r : QueryCallback} → Life p → Life q → move_assign p q ≡ ok r → Life r

  -- a query without a function can only be polled while it has no result
  idle-poll :
      (q r : QueryCallback) → q.callbacks ≡ [] → invoke_if_ready body q ≡ ok (false, r) → q ≡ r
  unfolding invoke_if_ready invoke_with
  idle-poll q r n e =
      let (future, f, g) =
        >>=-eq-ok (active_member q.is_prepared q.member)
          (λ future. invoke_on body (ready_result future) q) e in
      on (ready_result future) g
    where
      on : (o : Option ℕ) → invoke_on body o q ≡ ok (false, r) → q ≡ r
      on none g = ground (arith, g)
      on (some result) g =
          absurd (ground (arith, ap (λ cs. invoke_with body result q cs) (sym n), g))

  polled-WellTyped :
      (q r : QueryCallback) → WellTyped q → invoke_if_ready body q ≡ ok (false, r) → WellTyped r
  unfolding Only
  polled-WellTyped q r w e = elim (List-cases q.callbacks) [
    | inl n ↦ subst WellTyped (idle-poll q r n e) w
    | inr (front, rest, f) ↦
        subst (Only (λ x. x.0 ≡ false → WellTyped x.1)) e (invoke-typed q front rest w f) refl
  ]

  Life-WellTyped : {q : QueryCallback} → Life q → WellTyped q
  unfolding string_query prepared_query is_prepared_member AllTyped IsFor Only
  Life-WellTyped (with_string f) = record { alive = refl; each = tt; first = tt }
  Life-WellTyped (with_prepared f) = record { alive = refl; each = tt; first = tt }
  Life-WellTyped (acted {q} {r} a l e) =
      (subst (Only (Grown (adds a) q)) e (act-Grown q (Life-WellTyped l) a)).typed
  Life-WellTyped (came {q} l) = WellTyped-arrive q (Life-WellTyped l)
  Life-WellTyped (polled {q} {r} l e) = polled-WellTyped q r (Life-WellTyped l) e
  Life-WellTyped (moved {q} {r} l e) =
      subst (Only WellTyped) e (move_construct-WellTyped q (Life-WellTyped l))
  Life-WellTyped (assigned {p} {q} {r} l k e) =
      subst (Only WellTyped) e (move_assign-WellTyped p q (Life-WellTyped l) (Life-WellTyped k))

  -- Throughout the life of a query, the active member of its union and of each function's is the one
  -- that `_isPrepared` names; and when a function is there to call, a poll never reads an inactive
  -- member: only an ASSERT can end it.
  pub Life-typed :
      {q : QueryCallback} (front : QueryCallbackData) (rest : List QueryCallbackData)
      → Life q
      → q.callbacks ≡ front ∷ rest
      → (is_prepared_member q.member ≡ q.is_prepared)
        × AllTyped q.callbacks
        × (is_asserted (invoke_if_ready body q) ≡ true)
  Life-typed {q} front rest l f =
      let w = Life-WellTyped l in
      (
        w.alive,
        w.each,
        Only-is_asserted (λ x. x.0 ≡ false → WellTyped x.1) (invoke_if_ready body q)
            (invoke-typed q front rest w f),
      )

  -- A poll of a waiting query whose result is there calls the first function, once, with that
  -- result, or a failed ASSERT ends it; it leaves the other functions in their order, those that
  -- were added behind them, and unless it is complete the query waits again.
  pub poll-Called :
      (q : QueryCallback) (w : Waiting q)
      → w.future.is_ready ≡ true
      → Only (Called body w.future.result w.front w.rest) (invoke_if_ready body q)
  unfolding invoke_if_ready
  poll-Called q w e =
      let Goal = Called body w.future.result w.front w.rest in
      let f : ready_result (some w.future) ≡ some w.future.result = ground (arith, e) in
      subst (λ m. Only Goal (m >>= λ future. invoke_on body (ready_result future) q)) (sym w.valid)
        (subst (λ o. Only Goal (invoke_on body o q)) (sym f)
          (invoke_with-Called body w.future.result q w.typed w.front w.rest w.chain))

  -- the results come one after the other, and the query is polled after each
  unfoldable pub drive : ℕ → QueryCallback → Result (Bool × QueryCallback)
  drive zero q = ok (false, q)
  drive (suc n) q = invoke_if_ready body (arrive q) >>= λ x. elim x.0 [
    | true ↦ ok (true, x.1)
    | false ↦ drive n x.1
  ]

  Waiting-arrive :
      (q : QueryCallback) → Waiting q → (a : Waiting (arrive q)) × (a.future.is_ready ≡ true)
  unfolding arrive
  Waiting-arrive q w = (
    record {
      typed = WellTyped-arrive q w.typed;
      future = record w.future { is_ready = true };
      valid = active_member-arrived q.is_prepared q.member w.future w.valid;
      front = w.front;
      rest = w.rest;
      chain = w.chain;
    },
    refl,
  )

  unless_complete :
      (n : ℕ) (d : Bool) (r : QueryCallback)
      → (d ≡ false → Only (λ x. x.0 ≡ true) (drive n r))
      → Only (λ x. x.0 ≡ true) (elim d [ true ↦ ok (true, r) | false ↦ drive n r ])
  unfolding Only
  unless_complete n true r h = refl
  unless_complete n false r h = h refl

  -- While the functions add no others, a waiting query is complete after as many results as it has
  -- functions, or a failed ASSERT ends a poll before.
  pub chain-ends :
      (n : ℕ) (q : QueryCallback)
      → Waiting q
      → ((cb result : ℕ) → adds_of (body cb result) ≡ 0)
      → length q.callbacks ≤ n
      → Only (λ x. x.0 ≡ true) (drive n q)
  unfolding drive Only arrive
  chain-ends zero q w h l = absurd (omega (arith, ap length w.chain, l))
  chain-ends (suc n) q w h l =
      let (a, e) = Waiting-arrive q w in
      Only->>= (Called body a.future.result a.front a.rest) (λ x. x.0 ≡ true)
        (invoke_if_ready body (arrive q)) _ (poll-Called (arrive q) a e)
        (λ x c. unless_complete n x.0 x.1 (λ z.
          chain-ends n x.1 (still_waits x.0 x.1 z c.2.again) h (
            omega (
              arith,
              ap length a.chain,
              ap length c.2.queue,
              length-append a.rest c.2.left,
              c.2.number,
              h c.0 a.future.result,
              l,
            ))))
