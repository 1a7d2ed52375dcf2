-- ===== src/Network/Fewest.antt =====
-- The thread that `SelectThreadWithMinConnections` finds.
use mmo_wow.Prelude.{
  ℕ, zero, suc, ◌+◌, ◌-◌, ◌^◌, ◌≡◌, ◌≤◌, ◌<◌, sym, inl, inr, arith, u32, Bool-cases, if◌then◌else◌,
  ltb, ltb→lt,
}
use mathlib.Core.Path.{subst}
use mmo_wow.Network.{signed_lt, select_from, select_thread_with_min_connections}

-- the order of `int32` on residues
abbrev biased : ℕ → ℕ
biased c = u32 (c + 2 ^ 31)

-- No thread up to `i` has fewer than `m`, which is one of them.
pub record Least (counts : ℕ → ℕ) (i m : ℕ) : Type 0 where
  pub among : m < i
  pub least : (j : ℕ) → j < i → biased (counts m) ≤ biased (counts j)

upto : (P : ℕ → Type 0) (i : ℕ) → ((j : ℕ) → j < i → P j) → P i → (j : ℕ) → j < suc i → P j
upto P i h p j k = elim (Bool-cases (ltb j i)) [
  | inl e ↦ h j (ltb→lt j i e)
  | inr e ↦ subst P (ground (arith, e, k)) p
]

Least-next :
    (counts : ℕ → ℕ) (i m : ℕ)
    → Least counts i m
    → Least counts (suc i) (if signed_lt (counts i) (counts m) then i else m)
Least-next counts i m l = elim (Bool-cases (signed_lt (counts i) (counts m))) [
  | inl e ↦
      subst (λ b. Least counts (suc i) (if b then i else m)) (sym e)
        (record {
          among = omega arith;
          least =
              upto (λ j. biased (counts i) ≤ biased (counts j)) i
                (λ j h.
                  omega (arith, ltb→lt (biased (counts i)) (biased (counts m)) e, l.least j h))
                (omega arith);
        })
  | inr e ↦
      subst (λ b. Least counts (suc i) (if b then i else m)) (sym e)
        (record {
          among = omega (arith, l.among);
          least = upto (λ j. biased (counts m) ≤ biased (counts j)) i l.least (ground (arith, e));
        })
]

select_from-Least :
    (counts : ℕ → ℕ) (n i m : ℕ)
    → Least counts i m
    → Least counts (i + n) (select_from counts n i m)
unfolding select_from
select_from-Least counts zero i m l = subst (λ k. Least counts k m) (omega arith) l
select_from-Least counts (suc n) i m l =
    let next : ℕ = if signed_lt (counts i) (counts m) then i else m in
    subst (λ k. Least counts k (select_from counts n (suc i) next)) (omega arith)
      (select_from-Least counts n (suc i) next (Least-next counts i m l))

-- By the counts as `int32`, the thread that is selected is one of the threads, and none has fewer
-- connections.
pub select-Least :
    (counts : ℕ → ℕ) (thread_count : ℕ)
    → 0 < thread_count
    → Least counts thread_count (select_thread_with_min_connections counts thread_count)
unfolding select_thread_with_min_connections
select-Least counts n h =
    subst (λ k. Least counts k (select_from counts (n - 1) 1 0)) (omega (arith, h))
      (select_from-Least counts (n - 1) 1 0
        (record { among = omega arith; least = λ j k. ap_le j k }))
  where
    ap_le : (j : ℕ) → j < 1 → biased (counts 0) ≤ biased (counts j)
    ap_le j k =
        let z : 0 ≡ j = omega (arith, k) in
        subst (λ i. biased (counts 0) ≤ biased (counts i)) z (omega arith)
