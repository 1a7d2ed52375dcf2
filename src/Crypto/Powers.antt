-- ===== src/Crypto/Powers.antt =====
-- Powers modulo a number: what the two sides of SRP6 compute is the same power.
use mmo_wow.Prelude.{
  ℕ, zero, suc, ◌+◌, ◌*◌, ◌/◌, ◌%◌, ◌-◌, ◌^◌, ◌≡◌, ◌≢◌, ◌≤◌, refl, sym, ap, ◌∙◌, arith,
}
use native.Mathlib.Nat

-- A factor can be replaced by its residue, and so can the base of a power.
pub mod-mul_left : (n a b : ℕ) → (a % n) * b % n ≡ a * b % n
mod-mul_left n a b =
    sym (Nat.add-mul-mod_self_left ((a % n) * b) n ((a / n) * b))
    ∙ ap (λ k. k % n)
        (ap (λ k. (a % n) * b + k) (sym (Nat.mul_assoc n (a / n) b))
          ∙ sym (Nat.add-mul (a % n) (n * (a / n)) b)
          ∙ ap (λ k. k * b) (Nat.mod-add-div a n))

pub mod-mul_right : (n a b : ℕ) → a * (b % n) % n ≡ a * b % n
mod-mul_right n a b =
    ap (λ k. k % n) (Nat.mul_comm a (b % n))
    ∙ mod-mul_left n b a
    ∙ ap (λ k. k % n) (Nat.mul_comm b a)

pub mod-pow : (n a k : ℕ) → (a % n) ^ k % n ≡ a ^ k % n
mod-pow n a zero = ap (λ x. x % n) (Nat.pow-zero (a % n) ∙ sym (Nat.pow-zero a))
mod-pow n a (suc k) =
    ap (λ x. x % n) (Nat.pow-suc (a % n) k)
    ∙ mod-mul_right n ((a % n) ^ k) a
    ∙ sym (mod-mul_left n ((a % n) ^ k) a)
    ∙ ap (λ x. x * a % n) (mod-pow n a k)
    ∙ mod-mul_left n (a ^ k) a
    ∙ ap (λ x. x % n) (sym (Nat.pow-suc a k))

pub pow-cong : (n a b k : ℕ) → a % n ≡ b % n → a ^ k % n ≡ b ^ k % n
pow-cong n a b k e = sym (mod-pow n a k) ∙ ap (λ x. x ^ k % n) e ∙ mod-pow n b k

pow-add : (a m k : ℕ) → a ^ (m + k) ≡ a ^ m * a ^ k
pow-add a m zero =
    ap (λ x. a ^ x) {x = m + zero} (omega arith)
    ∙ sym (Nat.mul-one (a ^ m))
    ∙ ap (λ x. a ^ m * x) (sym (Nat.pow-zero a))
pow-add a m (suc k) =
    ap (λ x. a ^ x) {x = m + suc k} (omega arith)
    ∙ Nat.pow-suc a (m + k)
    ∙ ap (λ x. x * a) (pow-add a m k)
    ∙ Nat.mul_assoc (a ^ m) (a ^ k) a
    ∙ ap (λ x. a ^ m * x) (sym (Nat.pow-suc a k))

pow-mul : (a m k : ℕ) → a ^ (m * k) ≡ (a ^ m) ^ k
pow-mul a m zero = ap (λ x. a ^ x) (Nat.mul-zero m) ∙ Nat.pow-zero a ∙ sym (Nat.pow-zero (a ^ m))
pow-mul a m (suc k) =
    ap (λ x. a ^ x) (Nat.mul-suc m k)
    ∙ pow-add a (m * k) m
    ∙ ap (λ x. x * a ^ m) (pow-mul a m k)
    ∙ sym (Nat.pow-suc (a ^ m) k)

mul-pow : (a b k : ℕ) → (a * b) ^ k ≡ a ^ k * b ^ k
mul-pow a b zero =
    Nat.pow-zero (a * b)
    ∙ ap (λ x. x * 1) (sym (Nat.pow-zero a))
    ∙ ap (λ x. a ^ zero * x) (sym (Nat.pow-zero b))
mul-pow a b (suc k) =
    Nat.pow-suc (a * b) k
    ∙ ap (λ x. x * (a * b)) (mul-pow a b k)
    ∙ Nat.mul-mul-mul_comm (a ^ k) (b ^ k) a b
    ∙ ap (λ x. x * (b ^ k * b)) (sym (Nat.pow-suc a k))
    ∙ ap (λ x. a ^ suc k * x) (sym (Nat.pow-suc b k))

one-pow : (k : ℕ) → 1 ^ k ≡ 1
one-pow zero = refl
one-pow (suc k) = Nat.pow-suc 1 k ∙ ap (λ x. x * 1) (one-pow k)

-- No power of a number that has an inverse is a multiple of the modulus.
pub pow-nonzero : (n a inverse k : ℕ) → 1 % n ≡ 1 → a * inverse % n ≡ 1 → a ^ k % n ≢ 0
pow-nonzero n a inverse k one e z = absurd (
    omega (
      arith,
      one,
      sym (ap (λ x. x % n) (one-pow k))
          ∙ pow-cong n 1 (a * inverse) k (one ∙ sym e)
          ∙ ap (λ x. x % n) (mul-pow a inverse k)
          ∙ sym (mod-mul_left n (a ^ k) (inverse ^ k))
          ∙ ap (λ x. x * inverse ^ k % n) z,
    ))

-- The power that the server takes: `(A * v ^ u) ^ b`.
pub server_power :
    (n g a b x u : ℕ) → ((g ^ a % n) * ((g ^ x % n) ^ u % n)) ^ b % n ≡ (g ^ b) ^ (a + u * x) % n
server_power n g a b x u =
    pow-cong n ((g ^ a % n) * ((g ^ x % n) ^ u % n)) (g ^ a * (g ^ x) ^ u) b (
      mod-mul_left n (g ^ a) ((g ^ x % n) ^ u % n)
      ∙ mod-mul_right n (g ^ a) ((g ^ x % n) ^ u)
      ∙ sym (mod-mul_right n (g ^ a) ((g ^ x % n) ^ u))
      ∙ ap (λ k. g ^ a * k % n) (mod-pow n (g ^ x) u)
      ∙ mod-mul_right n (g ^ a) ((g ^ x) ^ u))
    ∙ ap (λ k. k % n)
        (ap (λ k. (g ^ a * k) ^ b) (sym (pow-mul g x u))
          ∙ ap (λ k. k ^ b) (sym (pow-add g a (x * u)))
          ∙ sym (pow-mul g (a + x * u) b)
          ∙ ap (λ k. g ^ k) (Nat.mul_comm (a + x * u) b)
          ∙ ap (λ k. g ^ (b * (a + k))) (Nat.mul_comm x u)
          ∙ pow-mul g b (a + u * x))

-- The base that the client takes: `B - 3 * v`.
pub client_base : (n p v : ℕ) → v ≤ n → ((p % n + v * 3) % n + 3 * (n - v)) % n ≡ p % n
client_base n p v h =
    Nat.mod-add-mod (p % n + v * 3) n (3 * (n - v))
    ∙ ap (λ k. k % n) (sums (p % n))
    ∙ Nat.add-mul-mod_self_left (p % n) n 3
    ∙ Nat.mod-mod p n
  where
    sums : (r : ℕ) → r + v * 3 + 3 * (n - v) ≡ r + n * 3
    sums r = omega (arith, h)
