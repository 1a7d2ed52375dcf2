-- ===== src/Query/Moves.antt =====
-- The move constructor and the move assignment of Server/database/Database/QueryCallback.cpp.
use mmo_wow.Prelude.{◌≡◌, refl, sym, ◌∙◌, Bool, true, false, [], Result, ok, ◌>>=◌, if◌then◌else◌}
use mathlib.Core.Path.{subst}
use mmo_wow.Query.{
  QueryCallback, active_member, same_kind, move_from, construct_active_member, move_assign,
  move_construct,
}
use mmo_wow.Query.Typed.{
  Only, Only->>=, Only-active_member, is_prepared_member, WellTyped, IsFor, Renewed,
  move_from-Renewed, same_kind-eq,
}

-- the end of both: the member, then the functions
move_all : QueryCallback → QueryCallback → Result QueryCallback
move_all to right =
    move_from to right >>= λ moved. ok (record moved { callbacks = right.callbacks })

move_all-WellTyped :
    (to right : QueryCallback)
    → is_prepared_member to.member ≡ to.is_prepared
    → to.is_prepared ≡ right.is_prepared
    → WellTyped right
    → Only WellTyped (move_all to right)
unfolding move_all Only
move_all-WellTyped to right h e w =
    Only->>= (Renewed to) WellTyped (move_from to right) _ (move_from-Renewed to right h w.alive)
      (λ moved n. record {
        alive = n.2 ∙ h ∙ sym n.1;
        each = w.each;
        first = subst (λ b. IsFor b right.callbacks) (sym (n.1 ∙ e)) w.first;
      })

construct_active_member-kind : (b : Bool) → is_prepared_member (construct_active_member b) ≡ b
unfolding construct_active_member is_prepared_member
construct_active_member-kind true = refl
construct_active_member-kind false = refl

-- A move keeps what was moved well typed, or an ASSERT fails.
pub move_construct-WellTyped :
    (right : QueryCallback) → WellTyped right → Only WellTyped (move_construct right)
unfolding move_construct move_all
move_construct-WellTyped right w =
    move_all-WellTyped
      (record {
        member = construct_active_member right.is_prepared;
        is_prepared = right.is_prepared;
        callbacks = [];
      })
      right (construct_active_member-kind right.is_prepared) refl w

pub move_assign-WellTyped :
    (right q : QueryCallback) → WellTyped right → WellTyped q → Only WellTyped (move_assign right q)
unfolding move_assign move_all Only
move_assign-WellTyped right q w v = by_kind (same_kind q.is_prepared right.is_prepared) refl
  where
    rebuilt : QueryCallback
    rebuilt = record q {
      member = construct_active_member right.is_prepared;
      is_prepared = right.is_prepared;
    }

    by_kind :
        (b : Bool)
        → same_kind q.is_prepared right.is_prepared ≡ b
        → Only WellTyped (
            (if b then ok q else (active_member q.is_prepared q.member >>= λ _. ok rebuilt))
            >>= λ kept. move_all kept right)
    by_kind true e =
        move_all-WellTyped q right v.alive (same_kind-eq q.is_prepared right.is_prepared e) w
    by_kind false e =
        Only->>= (λ kept. kept ≡ rebuilt) WellTyped
          (active_member q.is_prepared q.member >>= λ _. ok rebuilt) (λ kept. move_all kept right)
          (Only-active_member (λ kept. kept ≡ rebuilt) q.is_prepared q.member _ v.alive
            (λ f g. refl))
          (λ kept k.
            subst (λ x. Only WellTyped (move_all x right)) (sym k)
              (move_all-WellTyped rebuilt right (construct_active_member-kind right.is_prepared)
                refl w))
