-- ===== src/Transaction/Bracket.antt =====
-- The statements that a transaction sends.
use mmo_wow.Prelude.{
  ℕ, ◌≡◌, refl, ap, ◌∙◌, ◌⊎◌, inl, inr, Bool, true, false, List, [], ◌∷◌, ◌++◌, map, append_assoc,
}
use mmo_wow.Transaction.{
  Element, Statement, start_transaction, commit, rollback, element, execute_each,
  execute_transaction,
}

module _ {C : Type 0} (execute : Statement → C → Bool × C) (get_last_error : C → ℕ) where
  -- the connection with what it is given, oldest first
  unfoldable pub noted : Statement → C × List Statement → Bool × (C × List Statement)
  noted s (c, sent) = ((execute s c).0, ((execute s c).1, sent ++ (s ∷ [])))

  abbrev pub last_error : C × List Statement → ℕ
  last_error (c, sent) = get_last_error c

  abbrev pub statements : List Element → List Statement
  statements queries = map (λ q. element q) queries

  -- All of the queries and COMMIT are sent, or some of them, in order, and ROLLBACK.
  abbrev pub IsSent : List Element → List Statement → ℕ × (C × List Statement) → Type 0
  IsSent queries sent r =
      ((r.0 ≡ 0) × (r.1.1 ≡ sent ++ (statements queries ++ (commit ∷ []))))
      ⊎ ((ran : List Element) × (rest : List Element) × (queries ≡ ran ++ rest)
          × (r.1.1 ≡ sent ++ (statements ran ++ (rollback ∷ []))))

  execute_each-IsSent :
      (queries : List Element) (c : C) (sent : List Statement)
      → IsSent queries sent (execute_each noted last_error queries (c, sent))
  unfolding execute_each noted
  execute_each-IsSent [] c sent = inl (refl, refl)
  execute_each-IsSent (q ∷ rest) c sent =
      go (execute (element q) c).0
        (execute_each-IsSent rest (execute (element q) c).1 (sent ++ (element q ∷ [])))
    where
      go :
          (b : Bool)
          → IsSent rest (sent ++ (element q ∷ [])) (
              execute_each noted last_error rest
                ((execute (element q) c).1, sent ++ (element q ∷ [])))
          → IsSent (q ∷ rest) sent (elim b [
            | true ↦
                execute_each noted last_error rest
                  ((execute (element q) c).1, sent ++ (element q ∷ []))
            | false ↦ (
              get_last_error (execute (element q) c).1,
              (noted rollback ((execute (element q) c).1, sent ++ (element q ∷ []))).1,
            )
          ])
      go true (inl (z, e)) =
          inl (z, e ∙ append_assoc sent (element q ∷ []) (statements rest ++ (commit ∷ [])))
      go true (inr (ran, left, e, f)) = inr (
        q ∷ ran,
        left,
        ap (λ qs. q ∷ qs) e,
        f ∙ append_assoc sent (element q ∷ []) (statements ran ++ (rollback ∷ [])),
      )
      go false r = inr (q ∷ [], rest, refl, append_assoc sent (element q ∷ []) (rollback ∷ []))

  -- A transaction with a query sends START TRANSACTION first. Then it sends all of its queries in
  -- order and COMMIT, and returns 0, or it sends the first of them in order and ROLLBACK.
  pub execute_transaction-IsSent :
      (q : Element) (rest : List Element) (c : C) (sent : List Statement)
      → IsSent
          (q ∷ rest)
          (sent ++ (start_transaction ∷ []))
          (execute_transaction noted last_error (q ∷ rest) (c, sent))
  unfolding execute_transaction noted
  execute_transaction-IsSent q rest c sent =
      execute_each-IsSent (q ∷ rest) (execute start_transaction c).1
        (sent ++ (start_transaction ∷ []))
