-- ===== src/Auth/Listed.antt =====
-- Which realms are listed, and what is told of them.
use mmo_wow.Prelude.{
  ℕ, ◌-◌, ◌*◌, ◌/◌, ◌%◌, ◌^◌, ◌≡◌, refl, ◌⊎◌, inl, inr, Bool, true, false, List, [], ◌∷◌, ◌++◌,
  Option, none, some, ok, arith, Bool-cases, if◌then◌else◌, length, is_ok, is_ok-some, is_ok->>=,
  bit_and, bit_or,
}
use mmo_wow.Prelude.Bits.{bit_and-one, bit_or_halves, bit_and_halves}
use mmo_wow.Realm.{is_some, is_pre_bc_accepted, BuildInfo, Realm, get_build_info}
use mmo_wow.Auth.Session.{Env, Session}
use mmo_wow.Auth.Challenge.{pre_bc}
use mmo_wow.Auth.RealmReply.{
  has, flag_offline, flag_specify_build, is_ok_build, listed_flags, listed_name, build_chunks,
  realm_chunks, is_listed, realms_chunks,
}

bit_and-four : (n : ℕ) → bit_and n 4 ≡ n / 4 % 2 * 4
bit_and-four n =
    omega (arith, bit_and_halves n 4, bit_and_halves (n / 2) 2, bit_and-one (n / 2 / 2))

-- The mask `~REALM_FLAG_SPECIFYBUILD` clears bit 2.
masked-bit : (n : ℕ) → bit_and n 4294967291 / 4 % 2 ≡ 0
masked-bit n = omega (
  arith,
  bit_and_halves n 4294967291,
  bit_and_halves (n / 2) 2147483645,
  bit_and_halves (n / 2 / 2) 1073741822,
)

masked-has : (n : ℕ) → has (bit_and n (2 ^ 32 - 1 - flag_specify_build)) flag_specify_build ≡ false
masked-has n = ground (arith, bit_and-four (bit_and n 4294967291), masked-bit n)

listed_flags-none :
    (good : Bool) (flags : ℕ) → has (listed_flags good none flags) flag_specify_build ≡ false
unfolding listed_flags
listed_flags-none good flags = masked-has _

listed_name-is_ok :
    (env : Env) (s : Session) (info : Option BuildInfo) (flag : ℕ) (name : List ℕ)
    → (info ≡ none) × (has flag flag_specify_build ≡ false) ⊎ (is_some info ≡ true)
    → is_ok (listed_name env s info flag name) ≡ true
unfolding listed_name
listed_name-is_ok env s none flag name h = ground arith
listed_name-is_ok env s (some i) flag name h = ground arith

build_chunks-is_ok :
    (s : Session) (info : Option BuildInfo) (flag : ℕ)
    → (info ≡ none) × (has flag flag_specify_build ≡ false) ⊎ (is_some info ≡ true)
    → is_ok (build_chunks s info flag) ≡ true
unfolding build_chunks
build_chunks-is_ok s none flag h = ground arith
build_chunks-is_ok s (some i) flag h = ground arith

flag-known :
    (good : Bool) (info : Option BuildInfo) (flags : ℕ)
    → (info ≡ none) × (has (listed_flags good info flags) flag_specify_build ≡ false)
      ⊎ (is_some info ≡ true)
flag-known good none flags = inl (refl, listed_flags-none good flags)
flag-known good (some i) flags = inr refl

-- A realm is described without a null pointer being used, also where its build is not known.
pub realm_chunks-is_ok :
    (env : Env) (s : Session) (rows : List (ℕ × ℕ)) (r : Realm) (info : Option BuildInfo)
    → is_ok (realm_chunks env s rows r info) ≡ true
unfolding realm_chunks
realm_chunks-is_ok env s rows r info =
    let flag : ℕ = listed_flags (is_ok_build env s r) info r.flags in
    let k = flag-known (is_ok_build env s r) info r.flags in
    is_ok->>= (listed_name env s info flag r.name) _ (listed_name-is_ok env s info flag r.name k)
      (λ name.
        is_ok->>= (build_chunks s info flag) _ (build_chunks-is_ok s info flag k) (λ b. refl))

-- the realms that a session is shown
abbrev pub shown : Env → Session → List Realm → List Realm
shown env s [] = []
shown env s (r ∷ rs) = if is_listed env s r then r ∷ shown env s rs else shown env s rs

-- The loop over the realms always yields their bytes, and `RealmListSize` is the number of the realms
-- that it describes.
pub realms_chunks-shown :
    (env : Env) (s : Session) (rows : List (ℕ × ℕ)) (rs : List Realm)
    → (chunks : List (List ℕ)) × (realms_chunks env s rows rs
        ≡ ok (chunks, length (shown env s rs)))
unfolding realms_chunks
realms_chunks-shown env s rows [] = ([], refl)
realms_chunks-shown env s rows (r ∷ rs) =
    let (there, e) = realms_chunks-shown env s rows rs in
    let (here, q) =
      is_ok-some _ (realm_chunks-is_ok env s rows r (get_build_info env.builds r.build)) in
    elim (Bool-cases (is_listed env s r)) [
      | inl x ↦ (here ++ there, ground (arith, e, q))
      | inr x ↦ (there, ground (arith, e))
    ]

bit_or-offline : (n : ℕ) → bit_or n 6 / 2 % 2 ≡ 1
bit_or-offline n = omega (arith, bit_or_halves n 6, bit_or_halves (n / 2) 3)

bit_and-two : (n : ℕ) → bit_and n 2 ≡ n / 2 % 2 * 2
bit_and-two n = omega (arith, bit_and_halves n 2, bit_and-one (n / 2))

-- A client of a build before the Burning Crusade is shown every realm of a known build of that kind
-- as offline, its own build included: the check of `okBuild` has the wrong sign.
pub pre_bc_offline :
    (env : Env) (s : Session) (r : Realm)
    → s.expversion ≡ pre_bc
    → is_pre_bc_accepted env.builds r.build ≡ true
    → has
        (listed_flags (is_ok_build env s r) (get_build_info env.builds r.build) r.flags)
        flag_offline
      ≡ true
unfolding is_ok_build listed_flags is_pre_bc_accepted
pre_bc_offline env s r h k = ground (arith, bit_and-two (bit_or r.flags 6), bit_or-offline r.flags)
