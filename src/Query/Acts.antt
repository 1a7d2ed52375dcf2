-- ===== src/Query/Acts.antt =====
-- The public operations that a function can call, on a query that is well typed.
use mmo_wow.Prelude.{
  ℕ, ◌≡◌, refl, sym, ap, ◌∙◌, Bool, true, ◌||◌, not, List, [], ◌∷◌, ◌++◌, Result, ok, err, arith,
  append-nil, append_assoc, ◌+◌, length, length-append,
}
use mathlib.Core.Path.{subst}
use mmo_wow.Query.{
  QueryCallbackData, QueryCallback, string_query, prepared_query, string_data, prepared_data,
  move_from, set_next_query, is_empty, with_chaining_callback, with_chaining_prepared_callback,
  Action, next_string, next_prepared, add_string, add_prepared, act, act_all,
}
use mmo_wow.Query.Typed.{
  Only, Only->>=, Only-require, is_prepared_member, AllTyped, IsFor, WellTyped, Renewed,
  move_from-Renewed,
}

-- how many functions are added
unfoldable pub adds : Action → ℕ
adds (next_string f) = 0
adds (next_prepared f) = 0
adds (add_string c) = 1
adds (add_prepared c) = 1

unfoldable pub adds_of : List Action → ℕ
adds_of [] = 0
adds_of (a ∷ rest) = adds a + adds_of rest

-- What is left of a query by the public operations: well typed, of the same kind, and with its
-- functions before the `n` that were added.
pub record Grown (n : ℕ) (q r : QueryCallback) : Type 0 where
  pub typed : WellTyped r
  pub kind : r.is_prepared ≡ q.is_prepared
  pub added : List QueryCallbackData
  pub kept : r.callbacks ≡ q.callbacks ++ added
  pub number : length added ≡ n

Renewed-Grown : (q r : QueryCallback) → WellTyped q → Renewed q r → Grown 0 q r
Renewed-Grown q r w (c, k, m) = record {
  typed = record {
    alive = m ∙ w.alive ∙ sym k;
    each = subst AllTyped (sym c) w.each;
    first = subst (λ b. IsFor b r.callbacks) (sym k) (subst (IsFor q.is_prepared) (sym c) w.first);
  };
  kind = k;
  added = [];
  kept = c ∙ sym (append-nil q.callbacks);
  number = refl;
}

pub Only-weaken :
    {A : Type 0} (P Q : A → Type 0) (r : Result A) → Only P r → ((a : A) → P a → Q a) → Only Q r
unfolding Only
Only-weaken P Q (err e) h k = h
Only-weaken P Q (ok a) h k = k a h

AllTyped-append :
    (cs : List QueryCallbackData) (d : QueryCallbackData)
    → AllTyped cs
    → is_prepared_member d.member ≡ d.is_prepared
    → AllTyped (cs ++ (d ∷ []))
unfolding AllTyped
AllTyped-append [] d h k = (k, tt)
AllTyped-append (c ∷ cs) d h k = (h.0, AllTyped-append cs d h.1 k)

IsFor-append :
    (b : Bool) (cs : List QueryCallbackData) (d : QueryCallbackData)
    → IsFor b cs
    → (is_empty cs ≡ true → d.is_prepared ≡ b)
    → IsFor b (cs ++ (d ∷ []))
unfolding IsFor
IsFor-append b [] d h k = k refl
IsFor-append b (c ∷ cs) d h k = h

module _ (q : QueryCallback) (w : WellTyped q) where
  add-Grown :
      (d : QueryCallbackData)
      → is_prepared_member d.member ≡ d.is_prepared
      → (is_empty q.callbacks ≡ true → d.is_prepared ≡ q.is_prepared)
      → Grown 1 q (record q { callbacks = q.callbacks ++ (d ∷ []) })
  add-Grown d e h = record {
    typed = record {
      alive = w.alive;
      each = AllTyped-append q.callbacks d w.each e;
      first = IsFor-append q.is_prepared q.callbacks d w.first h;
    };
    kind = refl;
    added = d ∷ [];
    kept = refl;
    number = refl;
  }

  pub act-Grown : (a : Action) → Only (Grown (adds a) q) (act a q)
  unfolding act set_next_query with_chaining_callback with_chaining_prepared_callback string_query
      prepared_query string_data prepared_data is_prepared_member Only adds
  act-Grown (next_string f) =
      Only-weaken (Renewed q) (Grown 0 q) (move_from q (string_query f))
        (move_from-Renewed q (string_query f) w.alive refl) (λ r. Renewed-Grown q r w)
  act-Grown (next_prepared f) =
      Only-weaken (Renewed q) (Grown 0 q) (move_from q (prepared_query f))
        (move_from-Renewed q (prepared_query f) w.alive refl) (λ r. Renewed-Grown q r w)
  act-Grown (add_string c) =
      Only-require (Grown 1 q) (not (is_empty q.callbacks) || not q.is_prepared) _
        (λ e. add-Grown (string_data c) refl (λ z. ground (arith, e, z)))
  act-Grown (add_prepared c) =
      Only-require (Grown 1 q) (not (is_empty q.callbacks) || q.is_prepared) _
        (λ e. add-Grown (prepared_data c) refl (λ z. ground (arith, e, z)))

Grown-next : (n m : ℕ) (q r s : QueryCallback) → Grown n q r → Grown m r s → Grown (n + m) q s
Grown-next n m q r s g h = record {
  typed = h.typed;
  kind = h.kind ∙ g.kind;
  added = g.added ++ h.added;
  kept = h.kept ∙ ap (λ cs. cs ++ h.added) g.kept ∙ append_assoc q.callbacks g.added h.added;
  number = omega (arith, length-append g.added h.added, g.number, h.number);
}

pub act_all-Grown :
    (actions : List Action) (q : QueryCallback)
    → WellTyped q
    → Only (Grown (adds_of actions) q) (act_all actions q)
unfolding act_all Only adds_of
act_all-Grown [] q w = record {
  typed = w;
  kind = refl;
  added = [];
  kept = sym (append-nil q.callbacks);
  number = refl;
}
act_all-Grown (a ∷ rest) q w =
    Only->>= (Grown (adds a) q) (Grown (adds a + adds_of rest) q) (act a q) _ (act-Grown q w a)
      (λ r g.
        Only-weaken (Grown (adds_of rest) r) (Grown (adds a + adds_of rest) q) (act_all rest r)
          (act_all-Grown rest r g.typed) (λ s. Grown-next (adds a) (adds_of rest) q r s g))
