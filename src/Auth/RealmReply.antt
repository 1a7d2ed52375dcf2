-- ===== src/Auth/RealmReply.antt =====
-- `HandleRealmList` and `RealmListCallback`: the list of realms that a client is sent.
use mmo_wow.Prelude.{
  ℕ, ◌+◌, ◌-◌, ◌^◌, Bool, true, false, not, ◌&&◌, ◌||◌, List, [], ◌∷◌, ◌++◌, Option, none, some,
  Result, ok, err, deref, bit_and, bit_or, ltb, u8, ◌==◌, if◌then◌else◌, ◌>>=◌,
}
use mmo_wow.Prelude.Bytes.{to_bytes}
use mmo_wow.ByteBuffer
use mmo_wow.Realm.{BuildInfo, Realm, get_build_info, is_pre_bc_accepted, address_for_client}
use mmo_wow.Auth.Protocol.{cmd_realm_list, authed, waiting_for_realm_list}
use mmo_wow.Auth.Session.{Env, character_counts, Session, send_packet, put_all}
use mmo_wow.Auth.Challenge.{post_bc, pre_bc}

-- `HandleRealmList`
unfoldable pub handle_realm_list : Env → Session → Result (Bool × Session)
handle_realm_list env s = ok (
  true,
  record s {
    queries = s.queries ++ (character_counts s.account.id ∷ []);
    status = waiting_for_realm_list;
  },
)

-- REALM_FLAG_OFFLINE and REALM_FLAG_SPECIFYBUILD
abbrev pub flag_offline : ℕ
flag_offline = 2

abbrev pub flag_specify_build : ℕ
flag_specify_build = 4

-- `e & f` as a condition
abbrev pub has : ℕ → ℕ → Bool
has e f = not (bit_and e f == 0)

-- `characterCounts`, filled row by row, so that the last row of a realm counts
unfoldable pub count_of : ℕ → List (ℕ × ℕ) → ℕ → ℕ
count_of id [] acc = acc
count_of id ((realm, n) ∷ rows) acc = count_of id rows (if realm == id then n else acc)

-- `okBuild`
unfoldable pub is_ok_build : Env → Session → Realm → Bool
is_ok_build env s r =
    (has s.expversion post_bc && r.build == s.build)
    || (has s.expversion pre_bc && not (is_pre_bc_accepted env.builds r.build))

-- the `flag` of a listed realm
unfoldable pub listed_flags : Bool → Option BuildInfo → ℕ → ℕ
listed_flags ok_build info flags =
    let flag = if ok_build then flags else bit_or flags (bit_or flag_offline flag_specify_build) in
    elim info [ none ↦ bit_and flag (2 ^ 32 - 1 - flag_specify_build) | some _ ↦ flag ]

-- `pkt << text`
abbrev pub string_chunks : List ℕ → List (List ℕ)
string_chunks [] = (0 ∷ []) ∷ []
string_chunks (c ∷ cs) = (c ∷ cs) ∷ (0 ∷ []) ∷ []

-- the name that a realm is listed under: 32 40 is " (", 46 is '.', 41 is ')'
unfoldable pub listed_name : Env → Session → Option BuildInfo → ℕ → List ℕ → Result (List ℕ)
listed_name env s info flag name =
    if not (has s.expversion pre_bc && has flag flag_specify_build) then ok name else do
      i ← deref info
      ok (
          name
          ++ (32 ∷ 40 ∷ [])
          ++ env.decimal i.major_version
          ++ (46 ∷ [])
          ++ env.decimal i.minor_version
          ++ (46 ∷ [])
          ++ env.decimal i.bugfix_version
          ++ (41 ∷ []))

-- the build of a realm that the client has to be told
unfoldable pub build_chunks : Session → Option BuildInfo → ℕ → Result (List (List ℕ))
build_chunks s info flag =
    if not (has s.expversion post_bc && has flag flag_specify_build) then ok [] else do
      i ← deref info
      ok (
          (u8 i.major_version ∷ [])
          ∷ (u8 i.minor_version ∷ [])
          ∷ (u8 i.bugfix_version ∷ [])
          ∷ to_bytes 2 i.build
          ∷ [])

-- the bytes of one realm
unfoldable pub realm_chunks :
    Env → Session → List (ℕ × ℕ) → Realm → Option BuildInfo → Result (List (List ℕ))
unfolding is_ok_build listed_flags listed_name build_chunks
realm_chunks env s rows r info = do
  let flag = listed_flags (is_ok_build env s r) info r.flags
  name ← listed_name env s info flag r.name
  let (ip, port) = address_for_client env.net r s.remote_address
  let lock : ℕ = if ltb s.account.security_level r.allowed_security_level then 1 else 0
  build ← build_chunks s info flag
  ok (
      (u8 r.type ∷ [])
      ∷ ((if has s.expversion post_bc then (lock ∷ []) ∷ [] else [])
          ++ ((u8 flag ∷ [])
              ∷ (string_chunks name
                  ++ (string_chunks (env.net.endpoint_text ip port)
                      ++ (r.population
                          ∷ (u8 (count_of r.id rows 0) ∷ [])
                          ∷ (u8 r.timezone ∷ [])
                          ∷ ((if has s.expversion post_bc then u8 r.id ∷ [] else 0 ∷ [])
                              ∷ build)))))))

-- A realm of an unknown build is left out, unless `okBuild` holds.
unfoldable pub is_listed : Env → Session → Realm → Bool
unfolding is_ok_build
is_listed env s r = elim (get_build_info env.builds r.build) [
  | none ↦ is_ok_build env s r
  | some _ ↦ true
]

-- the loop over the realms: the bytes of those listed, and `RealmListSize`
unfoldable pub realms_chunks :
    Env → Session → List (ℕ × ℕ) → List Realm → Result (List (List ℕ) × ℕ)
realms_chunks env s rows [] = ok ([], 0)
realms_chunks env s rows (r ∷ rs) = elim (is_listed env s r) [
  | false ↦ realms_chunks env s rows rs
  | true ↦ elim (realm_chunks env s rows r (get_build_info env.builds r.build)) [
    | err e ↦ err e
    | ok here ↦ elim (realms_chunks env s rows rs) [
      | err e ↦ err e
      | ok (there, n) ↦ ok (here ++ there, n + 1)
    ]
  ]
]

-- the packet that `RealmListCallback` builds on the rows of its query
unfoldable pub realm_list_packet : Env → List (ℕ × ℕ) → Session → Result ByteBuffer.ByteBuffer
unfolding put_all realms_chunks
realm_list_packet env rows s = do
  (chunks, n) ← realms_chunks env s rows env.realms
  let is_post = has s.expversion post_bc
  let ending = if is_post then (0x10 ∷ []) ∷ (0 ∷ []) ∷ [] else (0 ∷ []) ∷ (2 ∷ []) ∷ []
  pkt ← put_all (chunks ++ ending) ByteBuffer.empty
  sizes ←
      put_all (to_bytes 4 0 ∷ (if is_post then to_bytes 2 n else to_bytes 4 n) ∷ [])
        ByteBuffer.empty
  hdr ←
      put_all
        ((cmd_realm_list ∷ []) ∷ to_bytes 2 (ByteBuffer.size pkt + ByteBuffer.size sizes) ∷ [])
        ByteBuffer.empty
  hdr ← ByteBuffer.append_buffer hdr sizes
  ByteBuffer.append_buffer hdr pkt

-- `RealmListCallback`
unfoldable pub realm_list_callback : Env → List (ℕ × ℕ) → Session → Result Session
unfolding realm_list_packet
realm_list_callback env rows s = do
  hdr ← realm_list_packet env rows s
  s ← send_packet hdr s
  ok (record s { status = authed })
