-- ===== src/Realm/Builds.antt =====
-- Server/Shared/Realm/RealmList.cpp, LoadBuildInfo: the builds of clients that the server knows.
use mmo_wow.Prelude.{
  ℕ, ◌*◌, ◌/◌, ◌≡◌, refl, Bool, true, false, List, [], ◌∷◌, Result, ok, ◌==◌, ==_iff, if◌then◌else◌,
  ◌>>=◌, length, replicate, arith, Bool-cases, inl, inr, length-replicate,
}
use mmo_wow.Util.Hex.{hex_str_to_byte_array, hex_bytes}
use mmo_wow.Realm.{BuildInfo, get_build_info, is_accepted}

-- a row of `build_info`, without the hotfix letters
pub record BuildRow : Type 0 where
  pub major_version : ℕ
  pub minor_version : ℕ
  pub bugfix_version : ℕ
  pub build : ℕ
  pub windows_text : List ℕ
  pub mac_text : List ℕ

abbrev pub hash_size : ℕ
hash_size = 20

-- the bytes of a hash, which stay zeros for a text of another length
unfoldable pub hash_bytes : List ℕ → Result (List ℕ)
hash_bytes text =
    if length text == hash_size * 2
    then hex_str_to_byte_array text hash_size false
    else ok (replicate hash_size 0)

-- one round of the loop
unfoldable pub build_info_of : BuildRow → Result BuildInfo
unfolding hash_bytes
build_info_of r = do
  windows ← hash_bytes r.windows_text
  mac ← hash_bytes r.mac_text
  ok (record {
    build = r.build;
    major_version = r.major_version;
    minor_version = r.minor_version;
    bugfix_version = r.bugfix_version;
    windows_hash = windows;
    mac_hash = mac;
  })

-- `LoadBuildInfo` on the rows of the query
unfoldable pub load_build_info : List BuildRow → Result (List BuildInfo)
unfolding build_info_of
load_build_info [] = ok []
load_build_info (r ∷ rows) = build_info_of r >>= λ i. (load_build_info rows >>= λ is. ok (i ∷ is))

length-hex_bytes : (xs : List ℕ) → length (hex_bytes xs) ≡ length xs / 2
unfolding hex_bytes
length-hex_bytes [] = refl
length-hex_bytes (c ∷ []) = refl
length-hex_bytes (c ∷ d ∷ rest) = omega (arith, length-hex_bytes rest)

hash_bytes-ok :
    (text : List ℕ) → (bytes : List ℕ) × (hash_bytes text ≡ ok bytes) × (length bytes ≡ hash_size)
unfolding hash_bytes hex_str_to_byte_array
hash_bytes-ok text = elim (Bool-cases (length text == hash_size * 2)) [
  | inl q ↦ (
    hex_bytes text,
    ground (arith, q),
    (let w : length text ≡ 40 = (==_iff (length text) 40).0 q in
        omega (arith, w, length-hex_bytes text)),
  )
  | inr q ↦ (replicate hash_size 0, ground (arith, q), length-replicate {A = ℕ} hash_size 0)
]

-- Both hashes of a build have 20 bytes.
abbrev pub HaveHashes : List BuildInfo → Type 0
HaveHashes [] = true ≡ true
HaveHashes (i ∷ is) =
    ((length i.windows_hash ≡ hash_size) × (length i.mac_hash ≡ hash_size)) × HaveHashes is

-- whether a row is of the build
abbrev pub has_row : List BuildRow → ℕ → Bool
has_row [] b = false
has_row (r ∷ rows) b = if r.build == b then true else has_row rows b

-- LoadBuildInfo fails no ASSERT; every build has two hashes of 20 bytes, whatever the texts, and
-- exactly the builds of the rows are accepted.
pub load_build_info-known :
    (rows : List BuildRow)
    → (is : List BuildInfo) × (load_build_info rows ≡ ok is)
      × HaveHashes is
      × ((b : ℕ) → is_accepted is b ≡ has_row rows b)
unfolding load_build_info build_info_of is_accepted get_build_info
load_build_info-known [] = ([], refl, refl, λ b. refl)
load_build_info-known (r ∷ rows) =
    let (windows, e, l) = hash_bytes-ok r.windows_text in
    let (mac, f, m) = hash_bytes-ok r.mac_text in
    let (is, g, h, k) = load_build_info-known rows in
    let i : BuildInfo = record {
      build = r.build;
      major_version = r.major_version;
      minor_version = r.minor_version;
      bugfix_version = r.bugfix_version;
      windows_hash = windows;
      mac_hash = mac;
    } in
    (i ∷ is, ground (arith, e, f, g), ((l, m), h), λ b. ground (arith, k b))
