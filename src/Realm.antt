-- ===== src/Realm.antt =====
-- Server/Shared/Realm: the realms that the server lists and the client builds that it knows, and
-- Server/AuthServer/Authentication/AuthCodes.cpp. An `EnumFlag` is its number; a population is the
-- four bytes of the `float`. What boost computes on addresses is a parameter.
pub mod Update
pub mod Builds
use mmo_wow.Prelude.{
  ℕ, Bool, true, false, ◌&&◌, ◌||◌, List, [], ◌∷◌, Option, none, some, ltb, leb, ◌==◌,
  if◌then◌else◌,
}

-- `RealmBuildInfo`, without the hotfix letters, which nothing reads
pub record BuildInfo : Type 0 where
  pub build : ℕ
  pub major_version : ℕ
  pub minor_version : ℕ
  pub bugfix_version : ℕ
  pub windows_hash : List ℕ
  pub mac_hash : List ℕ

-- `RealmList::GetBuildInfo`
unfoldable pub get_build_info : List BuildInfo → ℕ → Option BuildInfo
get_build_info [] build = none
get_build_info (i ∷ is) build = if i.build == build then some i else get_build_info is build

abbrev pub is_some {ℓ} : {A : Type ℓ} → Option A → Bool
is_some none = false
is_some (some a) = true

abbrev pub max_pre_bc_build : ℕ
max_pre_bc_build = 6141

unfoldable pub is_pre_bc_accepted : List BuildInfo → ℕ → Bool
is_pre_bc_accepted builds build =
    leb build max_pre_bc_build && is_some (get_build_info builds build)

unfoldable pub is_post_bc_accepted : List BuildInfo → ℕ → Bool
is_post_bc_accepted builds build =
    ltb max_pre_bc_build build && is_some (get_build_info builds build)

unfoldable pub is_accepted : List BuildInfo → ℕ → Bool
is_accepted builds build = is_some (get_build_info builds build)

-- What boost::asio decides on addresses, each a number.
pub record AddressRules : Type 0 where
  pub is_loopback : ℕ → Bool
  pub is_v4 : ℕ → Bool
  -- `Trinity::Net::IsInNetwork(network, mask, client)`
  pub is_in_network : ℕ → ℕ → ℕ → Bool
  -- `boost::lexical_cast<std::string>` of an endpoint
  pub endpoint_text : ℕ → ℕ → List ℕ

-- `Realm`; the addresses are set when a realm is listed
pub record Realm : Type 0 where
  pub id : ℕ
  pub build : ℕ
  pub external_address : ℕ
  pub local_address : ℕ
  pub local_subnet_mask : ℕ
  pub port : ℕ
  pub name : List ℕ
  pub type : ℕ
  pub flags : ℕ
  pub timezone : ℕ
  pub allowed_security_level : ℕ
  pub population : List ℕ

-- `Realm::GetAddressForClient`, the address and the port
unfoldable pub address_for_client : AddressRules → Realm → ℕ → ℕ × ℕ
address_for_client net r client =
    if net.is_loopback client
    then (if net.is_loopback r.local_address || net.is_loopback r.external_address
        then (client, r.port)
        else (r.local_address, r.port))
    else if net.is_v4 client && net.is_in_network r.local_address r.local_subnet_mask client
    then (r.local_address, r.port)
    else (r.external_address, r.port)
