-- ===== src/Query/Typed.antt =====
-- The unions of a query and its functions are read through the member that is alive.
use mmo_wow.Prelude.{
  ◌≡◌, refl, sym, ◌∙◌, Bool, true, false, List, [], ◌∷◌, Result, ok, err, assertion, require, ◌>>=◌,
  arith,
}
use mmo_wow.Query.{
  Member, string, prepared, active_member, assign, QueryCallbackData, QueryCallback, same_kind,
  move_from,
}

-- a call that ends with a failed ASSERT, or with a value of which `P` holds
unfoldable pub Only : {A : Type 0} → (A → Type 0) → Result A → Type 0
Only P (err e) = e ≡ assertion
Only P (ok a) = P a

pub Only->>= :
    {A B : Type 0} (P : A → Type 0) (Q : B → Type 0) (call : Result A) (next : A → Result B)
    → Only P call
    → ((a : A) → P a → Only Q (next a))
    → Only Q (call >>= next)
unfolding Only
Only->>= P Q (err e) next h k = h
Only->>= P Q (ok a) next h k = k a h

pub Only-require :
    {B : Type 0} (Q : B → Type 0) (test : Bool) (next : Unit {0} → Result B)
    → (test ≡ true → Only Q (next tt))
    → Only Q (require test assertion >>= next)
unfolding Only
Only-require Q true next k = k refl
Only-require Q false next k = refl

unfoldable pub is_prepared_member : {A : Type 0} → Member A → Bool
is_prepared_member (string a) = false
is_prepared_member (prepared a) = true

unfoldable pub AllTyped : List QueryCallbackData → Type 0
AllTyped [] = Unit {0}
AllTyped (c ∷ cs) = (is_prepared_member c.member ≡ c.is_prepared) × AllTyped cs

-- the first function is for the kind of the query
unfoldable pub IsFor : Bool → List QueryCallbackData → Type 0
IsFor b [] = Unit {0}
IsFor b (c ∷ cs) = c.is_prepared ≡ b

pub record WellTyped (q : QueryCallback) : Type 0 where
  pub alive : is_prepared_member q.member ≡ q.is_prepared
  pub each : AllTyped q.callbacks
  pub first : IsFor q.is_prepared q.callbacks

pub Only-active_member :
    {A B : Type 0} (Q : B → Type 0) (b : Bool) (m : Member A) (next : A → Result B)
    → is_prepared_member m ≡ b
    → ((a : A) → active_member b m ≡ ok a → Only Q (next a))
    → Only Q (active_member b m >>= next)
unfolding active_member is_prepared_member
Only-active_member Q true (prepared a) next e k = k a refl
Only-active_member Q false (string a) next e k = k a refl
Only-active_member Q true (string a) next e k = absurd (ground (arith, e))
Only-active_member Q false (prepared a) next e k = absurd (ground (arith, e))

pub is_prepared_member-assign :
    {A : Type 0} (a : A) (m : Member A) → is_prepared_member (assign a m) ≡ is_prepared_member m
unfolding is_prepared_member
is_prepared_member-assign a (string b) = refl
is_prepared_member-assign a (prepared b) = refl

pub same_kind-eq : (a b : Bool) → same_kind a b ≡ true → a ≡ b
same_kind-eq true b e = sym e
same_kind-eq false true e = absurd (ground (arith, e))
same_kind-eq false false e = refl

-- the same query with another future
abbrev pub Renewed : QueryCallback → QueryCallback → Type 0
Renewed q r =
    (r.callbacks ≡ q.callbacks)
    × (r.is_prepared ≡ q.is_prepared)
    × (is_prepared_member r.member ≡ is_prepared_member q.member)

pub move_from-Renewed :
    (to from : QueryCallback)
    → is_prepared_member to.member ≡ to.is_prepared
    → is_prepared_member from.member ≡ from.is_prepared
    → Only (Renewed to) (move_from to from)
unfolding move_from Only
move_from-Renewed to from h k =
    Only-require (Renewed to) (same_kind to.is_prepared from.is_prepared) _ (λ s.
      Only-active_member (Renewed to) to.is_prepared from.member _
        (k ∙ sym (same_kind-eq to.is_prepared from.is_prepared s))
        (λ f e.
          Only-active_member (Renewed to) to.is_prepared to.member _ h
            (λ g e'. (refl, refl, is_prepared_member-assign f to.member))))
