-- ===== src/Auth/Bounds.antt =====
-- The size of a challenge in `ReadHandler` and in its handlers, against the received bytes.
use mmo_wow.Prelude.{
  ℕ, ◌+◌, ◌^◌, ◌≤◌, ◌<◌, ◌≡◌, sym, inl, inr, true, List, [], ◌∷◌, ◌++◌, ok, arith, >>=-eq-ok,
  Bool-cases, ltb, length, sub_size, u16,
}
use mathlib.Core.Path.{subst}
use mmo_wow.Prelude.Bytes.{IsBytes, read_at-of_bytes}
use mmo_wow.MessageBuffer
use mmo_wow.Auth.Protocol.{status_eq}
use mmo_wow.Auth.Session.{
  Env, Query, logon_challenge, reconnect_challenge, Session, field_of, bytes_of,
}
use mmo_wow.Auth.Challenge.{handle_logon_challenge, handle_reconnect_challenge}
use mmo_wow.Auth.Queued.{Queued, handle_challenge-Challenged}
use mmo_wow.Auth.Reader.{
  Command, status_for, run, Round, again, stop, leave, handle, dispatch, size_of, packet_size,
  is_challenge,
}
use mmo_wow.Auth.Reader

field_of_lt :
    (s : Session) (off w : ℕ) {n : ℕ}
    → IsBytes s.read_buffer.storage
    → field_of s off w ≡ ok n
    → n < 256 ^ w
unfolding field_of bytes_of
field_of_lt s off w h e =
    let (ys, p, q) = >>=-eq-ok (bytes_of s off w) _ e in
    ground (arith, (read_at-of_bytes (s.read_buffer.rpos + off) w s.read_buffer.storage h p).1)

-- The query that a challenge waits for (`logon_challenge` stands for the commands that have none).
abbrev pub query_for : Command → List ℕ → Query
query_for Reader.reconnect_challenge login = reconnect_challenge login
query_for Reader.logon_challenge login = logon_challenge login
query_for Reader.logon_proof login = logon_challenge login
query_for Reader.reconnect_proof login = logon_challenge login
query_for Reader.realm_list login = logon_challenge login

-- A challenge that is taken on: the query of its command for its login, which the handler read.
pub record Taken (query : List ℕ → Query) (s t : Session) (login : List ℕ) : Type 0 where
  pub queries : t.queries ≡ s.queries ++ (query login ∷ [])
  pub bytes : bytes_of s 34 (length login) ≡ ok login
  pub inside : 34 + length login ≤ MessageBuffer.active_size s.read_buffer
  pub short : length login ≤ 17

-- The arithmetic: the size of the packet in 16 bits, and the check of the handler in 64.
sizes_agree :
    (stated len : ℕ)
    → stated < 256 ^ 2
    → len < 256 ^ 1
    → u16 (4 + stated) ≤ 51
    → sub_size stated 30 ≡ len
    → (u16 (4 + stated) ≡ 34 + len) × (len ≤ 17)
sizes_agree stated len a b c d = omega (arith)

Queued-Taken :
    (query : List ℕ → Query) (env : Env) (s t : Session) (login : List ℕ) (stated : ℕ)
    → IsBytes s.read_buffer.storage
    → field_of s 2 2 ≡ ok stated
    → u16 (4 + stated) ≤ 51
    → u16 (4 + stated) ≤ MessageBuffer.active_size s.read_buffer
    → Queued query env s t login
    → Taken query s t login
unfolding bytes_of
Queued-Taken query env s t login stated h e a b q =
    let x : stated ≡ q.stated = ground (arith, e, q.stated_read) in
    let l =
      (read_at-of_bytes (s.read_buffer.rpos + 34) q.login_len s.read_buffer.storage h q.taken).0 in
    let (u, v) =
      sizes_agree stated q.login_len (field_of_lt s 2 2 h e) (field_of_lt s 33 1 h q.len_read) a
        (ground (arith, x, q.fits)) in
    record {
      queries = q.queries;
      bytes = subst (λ n. bytes_of s 34 n ≡ ok login) (sym l) q.taken;
      inside = omega (arith, u, l, b);
      short = omega (arith, v, l);
    }

run-Taken :
    (env : Env) (now : ℕ) (c : Command) (s t : Session) (stated : ℕ)
    → is_challenge c ≡ true
    → IsBytes s.read_buffer.storage
    → field_of s 2 2 ≡ ok stated
    → u16 (4 + stated) ≤ 51
    → u16 (4 + stated) ≤ MessageBuffer.active_size s.read_buffer
    → run env now c s ≡ ok (true, t)
    → (login : List ℕ) × Taken (query_for c) s t login
unfolding run handle_logon_challenge handle_reconnect_challenge
run-Taken env now Reader.logon_challenge s t stated c h e a b r =
    elim (handle_challenge-Challenged logon_challenge env s r) [
      | inl (f, _) ↦ ground arith
      | inr (login, _, q) ↦ (login, Queued-Taken logon_challenge env s t login stated h e a b q)
    ]
run-Taken env now Reader.reconnect_challenge s t stated c h e a b r =
    elim (handle_challenge-Challenged reconnect_challenge env s r) [
      | inl (f, _) ↦ ground arith
      | inr (login, _, q) ↦ (login, Queued-Taken reconnect_challenge env s t login stated h e a b q)
    ]
run-Taken env now Reader.logon_proof s t stated c h e a b r = ground arith
run-Taken env now Reader.reconnect_proof s t stated c h e a b r = ground arith
run-Taken env now Reader.realm_list s t stated c h e a b r = ground arith

handle-Taken :
    (env : Env) (now : ℕ) (c : Command) (size : ℕ) (s t : Session) (stated : ℕ)
    → is_challenge c ≡ true
    → IsBytes s.read_buffer.storage
    → field_of s 2 2 ≡ ok stated
    → u16 (4 + stated) ≤ 51
    → u16 (4 + stated) ≤ MessageBuffer.active_size s.read_buffer
    → handle env now c size s ≡ ok (again t)
    → (login : List ℕ) × Taken (query_for c) s t login
unfolding handle
handle-Taken env now c size s t stated k h e a b r =
    let ((g, u), p, q) = >>=-eq-ok (run env now c s) _ r in
    let w : run env now c s ≡ ok (true, u) = ground arith in
    let (login, f) = run-Taken env now c s u stated k h e a b w in
    (
      login,
      record {
        queries = ground (arith, f.queries);
        bytes = f.bytes;
        inside = f.inside;
        short = f.short;
      },
    )

-- A challenge that `ReadHandler` goes on from queues one query, that of its command (logon or
-- reconnect), for the bytes from offset 34 of the packet on, of which there are at most 17 and all
-- lie within the bytes that were received. (The size in the packet is added
-- in 16 bits, so that one near 2 ^ 16 passes the upper bound; the handler refuses it.)
pub dispatch-Taken :
    (env : Env) (now : ℕ) (c : Command) (s t : Session)
    → is_challenge c ≡ true
    → IsBytes s.read_buffer.storage
    → dispatch env now c s ≡ ok (again t)
    → (login : List ℕ) × Taken (query_for c) s t login
unfolding dispatch size_of
dispatch-Taken env now c s t k h r = elim (Bool-cases (status_eq s.status (status_for c))) [
  | inr e ↦ ground arith
  | inl e ↦
      (let h0 = rw e at r in
        elim (Bool-cases (ltb (MessageBuffer.active_size s.read_buffer) (packet_size c))) [
          | inl e2 ↦ ground arith
          | inr e2 ↦
              (let h1 = rw e2 at h0 in
                let (size, z, h2) = >>=-eq-ok (size_of c s) _ h1 in
                let (stated, p, q) =
                  >>=-eq-ok (field_of s 2 2) (λ x. ok (u16 (packet_size c + x))) {y = size}
                    (ground (arith)) in
                let v : size ≡ u16 (4 + stated) = ground arith in
                handle-Taken env now c size s t stated k h p (ground arith) (ground arith)
                  (ground arith))
        ])
]
