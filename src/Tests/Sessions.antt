-- ===== src/Tests/Sessions.antt =====
-- Runs of the theorems on whole sessions.
use mmo_wow.Prelude.{
  ℕ, ◌+◌, ◌≡◌, ◌<◌, ◌≤◌, refl, Bool, true, false, List, [], ◌∷◌, ◌++◌, Option, none, some, Result,
  ok, err, replicate, length, arith, bit_and,
}
use mmo_wow.Prelude.Bytes.{IsBytes}
use mmo_wow.MessageBuffer
use mmo_wow.Realm.{get_build_info, is_pre_bc_accepted}
use mmo_wow.Auth.Protocol.{closed, challenge}
use mmo_wow.Auth.Session.{Env, Session, logon_challenge}
use mmo_wow.Auth.Challenge.{AccountRow, LogonRow}
use mmo_wow.Auth.RealmReply.{has, flag_offline, is_ok_build, listed_flags, realms_chunks}
use mmo_wow.Auth.Listed.{shown, realms_chunks-shown, pre_bc_offline}
use mmo_wow.Auth.Reader.{Round, again, dispatch, read_loop}
use mmo_wow.Auth.Reader
use mmo_wow.Auth.Step.{
  start, check_ip_callback, answered, receive, Step, arrive, ip_answer, here, next,
}
use mmo_wow.Auth.Invariant.{Inv, Reach-Inv}
use mmo_wow.Auth.Dead.{Untouched, Reach-closed}
use mmo_wow.Auth.Loop.{receive_ends}
use mmo_wow.Auth.Bounds.{Taken, dispatch-Taken}
use mmo_wow.Auth.Verdict.{Answer, first, reasons, logon_challenge_callback-Answer}
use mmo_wow.Tests.Toy.{env, session, old_realm}

abbrev outcome : Session → Result Session → Session
outcome s (ok t) = t
outcome s (err e) = s

-- a connection whose address is not banned
abbrev ip : List ℕ
ip = 49 ∷ []

connected : Session
unfolding check_ip_callback start
connected = outcome (start ip 1) (check_ip_callback none (answered [] (start ip 1)))

connected-eq : check_ip_callback none (answered [] (start ip 1)) ≡ ok connected
unfolding connected mmo_wow.Auth.Session.async_read MessageBuffer.normalize MessageBuffer.resize_to
    MessageBuffer.with_size
connected-eq = refl

connected-Step : Step env (start ip 1) connected
unfolding start
connected-Step = ip_answer ip [] none refl refl connected-eq

Reach-Inv_example : Inv env connected
Reach-Inv_example = Reach-Inv env ip 1 connected (next here connected-Step)

-- a client that goes on sending to a closed session
abbrev dead : Session
dead = record (session closed []) {
  read_buffer = record { wpos = 0; rpos = 0; storage = 0 ∷ 0 ∷ [] };
  is_reading = true;
}

after_dead : Option (Result Session) → Session
after_dead (some (ok t)) = t
after_dead _ = dead

dead' : Session
unfolding receive after_dead
dead' = after_dead (receive env 0 (1 ∷ []) dead)

dead-eq : receive env 0 (1 ∷ []) dead ≡ some (ok dead')
unfolding receive dead' MessageBuffer.write mmo_wow.Prelude.write_at read_loop Reader.round
    MessageBuffer.active_size mmo_wow.Auth.Session.field_of mmo_wow.Prelude.read_at
dead-eq = refl

dead-Step : Step env dead dead'
dead-Step =
    arrive 0 (1 ∷ []) refl (omega arith) (unfold MessageBuffer.remaining_space in omega arith)
      dead-eq

Reach-closed_example : Untouched dead dead'
Reach-closed_example = Reach-closed env dead dead' refl refl (next here dead-Step)

receive_ends_example : (r : Result Session) × (receive env 0 (1 ∷ []) dead ≡ some r)
receive_ends_example = receive_ends env 0 (1 ∷ []) dead

-- an account that is locked to another address
abbrev row : LogonRow
row = record {
  account = record {
    id = 1;
    username = 65 ∷ [];
    locked = true;
    lock_country = [];
    last_ip = 50 ∷ [];
    failed_logins = 0;
    banned = 1;
    permanently_banned = 1;
    security_level = 0;
  };
  totp_secret = none;
  salt = replicate 32 1;
  verifier = replicate 32 2;
}

logon_challenge_callback-Answer_example :
    Answer env
      (replicate 32 3)
      row
      (session closed [])
      (first (reasons env row (session closed [])))
logon_challenge_callback-Answer_example =
    logon_challenge_callback-Answer env (replicate 32 3) row (session closed [])

-- a challenge with a login of one byte
abbrev asking : Session
asking =
    session challenge
      (0 ∷ 0 ∷ 31 ∷ 0 ∷ replicate 7 0 ++ (243 ∷ 22 ∷ []) ++ replicate 20 0 ++ (1 ∷ 65 ∷ []))

after_asking : Result Round → Session
after_asking (ok (again t)) = t
after_asking _ = asking

asked : Session
unfolding dispatch after_asking
asked = after_asking (dispatch env 0 Reader.logon_challenge asking)

asked-eq : dispatch env 0 Reader.logon_challenge asking ≡ ok (again asked)
unfolding dispatch asked MessageBuffer.active_size mmo_wow.Auth.Session.field_of
    mmo_wow.Prelude.read_at Reader.run mmo_wow.Auth.Challenge.handle_logon_challenge
asked-eq = refl

asking-IsBytes : IsBytes asking.read_buffer.storage
asking-IsBytes = ground arith

dispatch-Taken_example : (login : List ℕ) × Taken logon_challenge asking asked login
dispatch-Taken_example =
    dispatch-Taken env 0 Reader.logon_challenge asking asked refl asking-IsBytes asked-eq

realms_chunks-shown_example :
    (chunks : List (List ℕ)) × (realms_chunks env dead ((1, 2) ∷ []) env.realms
      ≡ ok (chunks, length (shown env dead env.realms)))
realms_chunks-shown_example = realms_chunks-shown env dead ((1, 2) ∷ []) env.realms

known : is_pre_bc_accepted env.builds old_realm.build ≡ true
unfolding is_pre_bc_accepted get_build_info
known = refl

pre_bc_offline_example :
    has
      (listed_flags
        (is_ok_build env dead old_realm)
        (get_build_info env.builds old_realm.build)
        old_realm.flags)
      flag_offline
    ≡ true
pre_bc_offline_example = pre_bc_offline env dead old_realm refl known
