-- ===== src/Secrets/Load/Again.antt =====
-- Loads that fail, loads that are repeated, and the size of the secret.
use mmo_wow.Prelude.{
  ℕ, zero, suc, ◌*◌, ◌^◌, ◌%◌, ◌≡◌, ◌≤◌, ◌<◌, refl, sym, ap, ◌∙◌, true, false, List, ◌∷◌, Option,
  none, some, ok, err, assertion, ltb, inl, inr, Bool-cases, arith, lt→ltb, ltb→lt,
}
use native.Mathlib.Nat.{pow-suc, mod-eq_of_lt, mod-lt}
use mmo_wow.Secrets.Cipher.{Library, IsSound}
use mmo_wow.Secrets.{BigNumber, in_range, cut, get_hex_from_config, to_key, Database}
use mmo_wow.Secrets.Load.{Secret, Config, secret_bits, is_available, loaded, attempt_load}
use mmo_wow.Secrets.Load.Outcome.{Ends, load-Ends}

loaded-available : (v : Option ℕ) (s : Secret) → is_available (loaded v s).state ≡ true
loaded-available none s = refl
loaded-available (some n) s = refl

loaded_twice : (v : Option ℕ) (s : Secret) → loaded v (loaded v s) ≡ loaded v s
loaded_twice none s = refl
loaded_twice (some n) s = refl

-- With a sound library, a load that does not make the secret available leaves the database as it
-- was: no account is re-encrypted and no digest replaced.
pub attempt_load-failed :
    (lib : Library) (c : Config) (s s' : Secret) (db db' : Database)
    → IsSound lib
    → attempt_load lib c s db ≡ ok (s', db')
    → is_available s'.state ≡ false
    → db' ≡ db
attempt_load-failed lib c s s' db db' i e h =
    let (current, _, g) = load-Ends lib c s db (s', db') i e in go current g
  where
    go : (current : Option ℕ) → Ends lib c current s db (s', db') → db' ≡ db
    go current (inl x) = ap (λ (r : Secret × Database). r.1) x
    go current (inr (x, y)) =
        ground (arith, h, ap (λ (t : Secret). is_available t.state) x, loaded-available current s)

-- With a sound library, a load that makes the secret available is final, if its transaction succeeds: another load with the same
-- configuration succeeds with the same secret and changes nothing in the database.
pub attempt_load-again :
    (lib : Library) (c : Config) (s s' : Secret) (db db' : Database)
    → IsSound lib
    → attempt_load lib c s db ≡ ok (s', db')
    → is_available s'.state ≡ true
    → c.committed ≡ true
    → attempt_load lib c s' db' ≡ ok (s', db')
unfolding attempt_load
attempt_load-again lib c s s' db db' i e h t =
    let (current, f, g) = load-Ends lib c s db (s', db') i e in go current f g
  where
    go :
        (current : Option ℕ)
        → get_hex_from_config c.read_hex c.current_text secret_bits ≡ ok current
        → Ends lib c current s db (s', db')
        → attempt_load lib c s' db' ≡ ok (s', db')
    go current f (inl x) =
        ground (arith, h, ap (λ (r : Secret × Database). is_available r.0.state) x)
    go current f (inr (x, y)) =
        let z : loaded current s' ≡ s' = ap (loaded current) x ∙ (loaded_twice current s ∙ sym x) in
        ground (arith, f, y t, z)

two_power : (bits : ℕ) → 0 < 2 * 2 ^ bits
two_power zero = omega arith
two_power (suc b) = omega (arith, two_power b, pow-suc 2 b)

natural : ℕ → BigNumber
natural n = record { is_negative = false; magnitude = n }

cut-natural : (t n : ℕ) → 0 < t → cut t (natural n) ≡ natural (n % t)
unfolding cut in_range natural
cut-natural t n h = elim (Bool-cases (ltb n t)) [
  | inl l ↦ (let m : n % t ≡ n = mod-eq_of_lt (ltb→lt n t l) in ground (arith, l, m))
  | inr l ↦ ground (arith, l)
]

natural-in_range : (t n : ℕ) → 0 < t → in_range t (natural (n % t)) ≡ true
unfolding in_range natural
natural-in_range t n h = lt→ltb (n % t) t (mod-lt n h)

-- A number of the configuration that is not negative is taken as it is below `2 ^ (bits + 1)`, and
-- otherwise its remainder by that power is.
pub config_bits :
    (read_hex : List ℕ → Option BigNumber) (c : ℕ) (cs : List ℕ) (n bits : ℕ)
    → read_hex (c ∷ cs) ≡ some (record { is_negative = false; magnitude = n })
    → get_hex_from_config read_hex (c ∷ cs) bits ≡ ok (some (n % (2 * 2 ^ bits)))
unfolding get_hex_from_config natural
config_bits read_hex c cs n bits h =
    let e = cut-natural (2 * 2 ^ bits) n (two_power bits) in
    let i = natural-in_range (2 * 2 ^ bits) n (two_power bits) in ground (arith, h, e, i)

-- A secret of the configuration with 129 bits is taken as it is, although it has no key: the
-- conversion to one of 16 bytes fails its ASSERT.
pub secret_too_long :
    (read_hex : List ℕ → Option BigNumber) (c : ℕ) (cs : List ℕ) (n : ℕ)
    → read_hex (c ∷ cs) ≡ some (record { is_negative = false; magnitude = n })
    → 2 ^ 128 ≤ n
    → n < 2 ^ 129
    → (get_hex_from_config read_hex (c ∷ cs) secret_bits ≡ ok (some n)) × (to_key n ≡ err assertion)
unfolding to_key
secret_too_long read_hex c cs n h l u =
    (config_bits read_hex c cs n secret_bits h ∙ ap (λ k. ok (some k)) (omega arith), ground arith)
