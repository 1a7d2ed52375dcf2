-- ===== src/Query/Chain.antt =====
-- Which function is called, and what is left of the chain.
use mmo_wow.Prelude.{
  ℕ, ◌≡◌, refl, sym, ap, ◌∙◌, ◌⊎◌, inl, inr, Bool, true, not, List, [], ◌∷◌, ◌++◌, Option, none,
  some, ok, Option-cases, length,
}
use mathlib.Core.Path.{subst}
use mmo_wow.Query.{
  Future, active_member, assign, QueryCallbackData, QueryCallback, same_kind, Action, act_all,
  is_valid, check_rest, check_state, invoke_with,
}
use mmo_wow.Query.Typed.{
  Only, Only->>=, Only-require, Only-active_member, AllTyped, IsFor, WellTyped, same_kind-eq,
  is_prepared_member-assign,
}
use mmo_wow.Query.Acts.{Grown, act_all-Grown, Only-weaken, adds_of}

-- a query that waits for a result, with a function to call
pub record Waiting (q : QueryCallback) : Type 0 where
  pub typed : WellTyped q
  pub future : Future
  pub valid : active_member q.is_prepared q.member ≡ ok (some future)
  pub front : QueryCallbackData
  pub rest : List QueryCallbackData
  pub chain : q.callbacks ≡ front ∷ rest

-- What a poll leaves of a chain that has `rest` behind its front: the chain is at its end, or it
-- waits again, and `n` functions were added behind.
pub record Advanced (n : ℕ) (rest : List QueryCallbackData) (x : Bool × QueryCallback)
    : Type 0 where
  pub again : (x.0 ≡ true) ⊎ Waiting x.1
  pub left : List QueryCallbackData
  pub queue : x.1.callbacks ≡ rest ++ left
  pub number : length left ≡ n

module _ (n : ℕ) (rest added : List QueryCallbackData) (number : length added ≡ n)
    (r : QueryCallback) (typed : WellTyped r) (future : Option Future)
    (valid : active_member r.is_prepared r.member ≡ ok future) where
  -- the chain is at its end
  ended :
      (d : List QueryCallbackData)
      → d ≡ rest ++ added
      → Advanced n rest (true, record r { callbacks = d })
  ended d e = record { again = inl refl; left = added; queue = e; number = number }

  check_rest-Advanced :
      (d : List QueryCallbackData)
      → AllTyped d
      → d ≡ rest ++ added
      → Only (Advanced n rest) (check_rest future r d)
  unfolding check_rest Only IsFor
  check_rest-Advanced [] a e =
      Only-require (Advanced n rest) (not (is_valid future)) _ (λ z. ended [] e)
  check_rest-Advanced (c ∷ cs) a e = elim (Option-cases future) [
    | inl f ↦
        subst (λ o. Only (Advanced n rest) (check_rest o r (c ∷ cs))) (sym f) (ended (c ∷ cs) e)
    | inr (f, g) ↦
        subst (λ o. Only (Advanced n rest) (check_rest o r (c ∷ cs))) (sym g)
          (Only-require (Advanced n rest) (same_kind r.is_prepared c.is_prepared) _ (λ s. record {
            again = inr (record {
              typed = record {
                alive = typed.alive;
                each = a;
                first = sym (same_kind-eq r.is_prepared c.is_prepared s);
              };
              future = f;
              valid = valid ∙ ap (λ (o : Option Future). ok o) g;
              front = c;
              rest = cs;
              chain = refl;
            });
            left = added;
            queue = e;
            number = number;
          }))
  ]

check_state-Advanced :
    (n : ℕ) (front : QueryCallbackData) (rest : List QueryCallbackData) (q r : QueryCallback)
    → q.callbacks ≡ front ∷ rest
    → Grown n q r
    → Only (Advanced n rest) (check_state r r.callbacks)
unfolding check_state AllTyped
check_state-Advanced n front rest q r e g =
    let h : r.callbacks ≡ front ∷ (rest ++ g.added) = g.kept ∙ ap (λ cs. cs ++ g.added) e in
    subst (λ d. Only (Advanced n rest) (check_state r d)) (sym h)
      (Only-active_member (Advanced n rest) r.is_prepared r.member _ g.typed.alive (λ future valid.
        check_rest-Advanced n rest g.added g.number r g.typed future valid (rest ++ g.added)
          (subst AllTyped h g.typed.each).1 refl))

module _ (body : ℕ → ℕ → List Action) where
  -- what a poll on a result leaves, the functions counted that the one called adds
  abbrev pub Called : ℕ → QueryCallbackData → List QueryCallbackData → Bool × QueryCallback → Type 0
  Called result front rest x =
      (cb : ℕ) × (active_member front.is_prepared front.member ≡ ok cb)
      × Advanced (adds_of (body cb result)) rest x

  pub invoke_with-Called :
      (result : ℕ) (q : QueryCallback) (w : WellTyped q) (front : QueryCallbackData)
      (rest : List QueryCallbackData)
      → q.callbacks ≡ front ∷ rest
      → Only (Called result front rest) (invoke_with body result q q.callbacks)
  unfolding invoke_with AllTyped IsFor
  invoke_with-Called result q w front rest e =
      let Goal : Bool × QueryCallback → Type 0 = Called result front rest in
      let moved : QueryCallback = record q { member = assign none q.member } in
      let typed : WellTyped moved = record {
        alive = is_prepared_member-assign none q.member ∙ w.alive;
        each = w.each;
        first = w.first;
      } in
      let kind : front.is_prepared ≡ q.is_prepared = subst (IsFor q.is_prepared) e w.first in
      subst (λ d. Only Goal (invoke_with body result q d)) (sym e)
        (Only-active_member Goal q.is_prepared front.member _ ((subst AllTyped e w.each).0 ∙ kind)
          (λ cb f.
            Only->>= (Grown (adds_of (body cb result)) moved) Goal (act_all (body cb result) moved)
              _ (act_all-Grown (body cb result) moved typed)
              (λ r g.
                Only-weaken (Advanced (adds_of (body cb result)) rest) Goal
                  (check_state r r.callbacks)
                  (check_state-Advanced (adds_of (body cb result)) front rest moved r e g)
                  (λ x a. (cb, ap (λ b. active_member b front.member) kind ∙ f, a)))))
