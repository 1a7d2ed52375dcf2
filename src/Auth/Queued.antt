-- ===== src/Auth/Queued.antt =====
-- What the handlers of a challenge do.
use mmo_wow.Prelude.{
  ℕ, ◌≡◌, ◌⊎◌, inl, inr, Bool, true, false, List, [], ◌∷◌, ◌++◌, sub_size, ok, arith, ◌==◌,
  >>=-eq-ok, Bool-cases, ==_iff,
}
use mmo_wow.Auth.Protocol.{closed}
use mmo_wow.Auth.Session.{Env, Query, Session, bytes_of, field_of}
use mmo_wow.Auth.Challenge.{expansion_of, handle_challenge}

-- A challenge handler closes the session to further packets until its query is answered. It refuses
-- a packet whose stated size is not that of its login; the size is compared modulo 2 ^ 64.
pub record Queued (query : List ℕ → Query) (env : Env) (s t : Session) (login : List ℕ)
    : Type 0 where
  pub status : t.status ≡ closed
  pub srp6 : t.srp6 ≡ s.srp6
  pub is_closed : t.is_closed ≡ s.is_closed
  pub is_closing : t.is_closing ≡ s.is_closing
  pub is_reading : t.is_reading ≡ s.is_reading
  pub queries : t.queries ≡ s.queries ++ (query login ∷ [])
  pub expversion : t.expversion ≡ expansion_of env t.build
  pub same_buffer : t.read_buffer ≡ s.read_buffer
  pub login_len : ℕ
  pub taken : bytes_of s 34 login_len ≡ ok login
  pub len_read : field_of s 33 1 ≡ ok login_len
  pub stated : ℕ
  pub stated_read : field_of s 2 2 ≡ ok stated
  pub fits : sub_size stated 30 ≡ login_len

abbrev pub Challenged : (List ℕ → Query) → Env → Session → Bool → Session → Type 0
Challenged query env s g t =
    ((g ≡ false) × (t ≡ record s { status = closed }))
    ⊎ ((login : List ℕ) × (g ≡ true) × Queued query env s t login)

pub handle_challenge-Challenged :
    (query : List ℕ → Query) (env : Env) (s : Session) {g : Bool} {t : Session}
    → handle_challenge query env s ≡ ok (g, t)
    → Challenged query env s g t
unfolding handle_challenge field_of bytes_of
handle_challenge-Challenged query env s {g} {t} h =
    let s' : Session = record s { status = closed } in
    let (size, e1, h1) = >>=-eq-ok (field_of s' 2 2) _ h in
    let (len, e2, h2) = >>=-eq-ok (field_of s' 33 1) _ h1 in
    elim (Bool-cases (sub_size size 30 == len)) [
      | inr e ↦ inl (ground arith)
      | inl e ↦
          (let h3 = rw e at h2 in
            let (login, e4, h4) = >>=-eq-ok (bytes_of s' 34 len) _ h3 in
            let (build, e5, h5) = >>=-eq-ok (field_of s' 11 2) _ h4 in
            let (os, e6, h6) = >>=-eq-ok (bytes_of s' 17 4) _ h5 in
            let (country, e7, h7) = >>=-eq-ok (bytes_of s' 21 4) _ h6 in
            inr (
              login,
              ground arith,
              record {
                status = ground arith;
                srp6 = ground arith;
                is_closed = ground arith;
                is_closing = ground arith;
                is_reading = ground arith;
                queries = ground arith;
                expversion = ground arith;
                same_buffer = ground arith;
                login_len = len;
                taken = e4;
                len_read = e2;
                stated = size;
                stated_read = e1;
                fits = (==_iff _ _).0 e;
              },
            ))
    ]
