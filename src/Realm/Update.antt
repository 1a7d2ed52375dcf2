-- ===== src/Realm/Update.antt =====
-- Server/Shared/Realm/RealmList.cpp: `UpdateRealm`, `UpdateRealms` and `GetRealm`. The map of realms
-- is a list in the order of their ids; resolving a name is a parameter.
use mmo_wow.Prelude.{
  ℕ, ◌≡◌, refl, ap, ◌∙◌, Bool, true, false, List, [], ◌∷◌, Option, none, some, ltb, leb, ◌==◌,
  if◌then◌else◌, arith,
}
use mmo_wow.Realm.{Realm}

-- a row of LOGIN_SEL_REALMLIST
pub record Row : Type 0 where
  pub id : ℕ
  pub name : List ℕ
  pub external_text : List ℕ
  pub local_text : List ℕ
  pub mask_text : List ℕ
  pub port : ℕ
  pub icon : ℕ
  pub flags : ℕ
  pub timezone : ℕ
  pub security_level : ℕ
  pub population : List ℕ
  pub build : ℕ

-- REALM_TYPE_NORMAL, REALM_TYPE_PVP, REALM_TYPE_FFA_PVP and MAX_CLIENT_REALM_TYPE
abbrev pub type_normal : ℕ
type_normal = 0

abbrev pub type_pvp : ℕ
type_pvp = 1

abbrev pub type_ffa_pvp : ℕ
type_ffa_pvp = 16

abbrev pub max_client_type : ℕ
max_client_type = 14

-- SEC_ADMINISTRATOR
abbrev pub administrator : ℕ
administrator = 3

-- the type that a client is told
unfoldable pub client_type : ℕ → ℕ
client_type icon =
    let shown : ℕ = if icon == type_ffa_pvp then type_pvp else icon in
    if leb max_client_type shown then type_normal else shown

-- the realm of a row with resolved addresses
unfoldable pub realm_of : Row → ℕ → ℕ → ℕ → Realm
unfolding client_type
realm_of r external inner mask = record {
  id = r.id;
  build = r.build;
  external_address = external;
  local_address = inner;
  local_subnet_mask = mask;
  port = r.port;
  name = r.name;
  type = client_type r.icon;
  flags = r.flags;
  timezone = r.timezone;
  allowed_security_level =
      if leb r.security_level administrator then r.security_level else administrator;
  population = r.population;
}

-- `UpdateRealm`: every member is set, so the entry of the id is replaced or made.
unfoldable pub update_realm : Realm → List Realm → List Realm
update_realm r [] = r ∷ []
update_realm r (x ∷ xs) =
    if ltb r.id x.id then r ∷ x ∷ xs else if r.id == x.id then r ∷ xs else x ∷ update_realm r xs

-- `GetRealm`
unfoldable pub get_realm : ℕ → List Realm → Option Realm
get_realm id [] = none
get_realm id (x ∷ xs) = if x.id == id then some x else get_realm id xs

module _ (resolve : List ℕ → Option ℕ) where
  -- the realm of a row, if its three addresses are resolved
  unfoldable pub usable : Row → Option Realm
  unfolding realm_of
  usable r = elim (resolve r.external_text) [
    | none ↦ none
    | some external ↦ elim (resolve r.local_text) [
      | none ↦ none
      | some inner ↦ elim (resolve r.mask_text) [
        | none ↦ none
        | some mask ↦ some (realm_of r external inner mask)
      ]
    ]
  ]

  -- the loop of `UpdateRealms` over the rows
  unfoldable pub add_rows : List Row → List Realm → List Realm
  unfolding update_realm usable
  add_rows [] realms = realms
  add_rows (r ∷ rs) realms = elim (usable r) [
    | none ↦ add_rows rs realms
    | some realm ↦ add_rows rs (update_realm realm realms)
  ]

  -- `UpdateRealms`, on the rows of its query, or none; with an error it does nothing
  unfoldable pub update_realms : Bool → Option (List Row) → List Realm → List Realm
  unfolding add_rows
  update_realms true rows realms = realms
  update_realms false none realms = []
  update_realms false (some rows) realms = add_rows rows []

-- An entry is found under its id; the others are found as before.
get_realm-update_realm :
    (id : ℕ) (r : Realm) (xs : List Realm)
    → get_realm id (update_realm r xs) ≡ (if r.id == id then some r else get_realm id xs)
unfolding get_realm update_realm
get_realm-update_realm id r [] = refl
get_realm-update_realm id r (x ∷ xs) = ground (arith, get_realm-update_realm id r xs)

module _ (resolve : List ℕ → Option ℕ) where
  -- the realm of the last usable row with an id, or else `found`
  abbrev pub last_row : ℕ → List Row → Option Realm → Option Realm
  last_row id [] found = found
  last_row id (r ∷ rs) found = elim (usable resolve r) [
    | none ↦ last_row id rs found
    | some realm ↦ last_row id rs (if realm.id == id then some realm else found)
  ]

  get_realm-add_rows :
      (id : ℕ) (rows : List Row) (xs : List Realm)
      → get_realm id (add_rows resolve rows xs) ≡ last_row id rows (get_realm id xs)
  unfolding add_rows
  get_realm-add_rows id [] xs = refl
  get_realm-add_rows id (r ∷ rs) xs =
      elim (usable resolve r)
        as (λ u.
          get_realm id (elim u [
            | none ↦ add_rows resolve rs xs
            | some realm ↦ add_rows resolve rs (update_realm realm xs)
          ])
          ≡ elim u [
            | none ↦ last_row id rs (get_realm id xs)
            | some realm ↦ last_row id rs (if realm.id == id then some realm else get_realm id xs)
          ]) [
            | none ↦ get_realm-add_rows id rs xs
            | some realm ↦
                get_realm-add_rows id rs (update_realm realm xs)
                ∙ ap (last_row id rs) (get_realm-update_realm id realm xs)
          ]

  -- After an update with rows, a realm is found exactly as the last row with its id whose addresses
  -- are resolved describes it: what was there before is gone.
  pub get_realm-update_realms :
      (id : ℕ) (rows : List Row) (before : List Realm)
      → get_realm id (update_realms resolve false (some rows) before) ≡ last_row id rows none
  unfolding update_realms get_realm
  get_realm-update_realms id rows before = get_realm-add_rows id rows []
