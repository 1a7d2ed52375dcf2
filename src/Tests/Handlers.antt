-- ===== src/Tests/Handlers.antt =====
-- Runs of the handlers of the proofs.
use mmo_wow.Prelude.{
  ℕ, ◌≡◌, ◌↔◌, assertion, none, refl, Bool, true, false, List, [], ◌∷◌, ◌++◌, some, Result, ok, err,
  replicate,
}
use mmo_wow.Crypto.Srp6
use mmo_wow.Auth.Protocol.{authed, logon_proof, reconnect_proof}
use mmo_wow.Auth.Session.{Session}
use mmo_wow.Auth.Proof.{reconnect_digest, handle_logon_proof, handle_reconnect_proof}
use mmo_wow.Auth.Login.{LoggedIn}
use mmo_wow.Auth.Safety.{Reconnected, handle_logon_proof-authed, handle_reconnect_proof-authed}
use mmo_wow.Tests.Toy.{crypto, env, session, srp, client_key, client_proof}

abbrev outcome : Session → Result (Bool × Session) → Session
outcome s (ok (g, t)) = t
outcome s (err e) = s

asking : Session
unfolding client_proof
asking =
    record (session logon_proof
      (1 ∷ client_key ++ client_proof ++ replicate 20 0 ++ (0 ∷ 0 ∷ []))) { srp6 = some srp }

asked : Session
unfolding handle_logon_proof asking
asked = outcome asking (handle_logon_proof env 0 asking)

asked-eq : handle_logon_proof env 0 asking ≡ ok (true, asked)
unfolding handle_logon_proof asking asked mmo_wow.Auth.Session.bytes_of mmo_wow.Prelude.read_at
    Srp6.verify mmo_wow.Auth.Session.field_of mmo_wow.Auth.Proof.verify_version
    mmo_wow.Auth.Session.send_packet Srp6.session_verifier mmo_wow.ByteBuffer.contents
    mmo_wow.MessageBuffer.write mmo_wow.Prelude.write_at mmo_wow.MessageBuffer.with_size
    mmo_wow.ByteBuffer.size
asked-eq = refl

asked-status : asked.status ≡ authed
unfolding asked mmo_wow.Auth.Session.bytes_of mmo_wow.Prelude.read_at Srp6.verify
    mmo_wow.Auth.Session.field_of mmo_wow.Auth.Proof.verify_version mmo_wow.Auth.Session.send_packet
    Srp6.session_verifier mmo_wow.ByteBuffer.contents mmo_wow.MessageBuffer.write
    mmo_wow.Prelude.write_at mmo_wow.MessageBuffer.with_size mmo_wow.ByteBuffer.size
asked-status = refl

handle_logon_proof-authed_example : LoggedIn env 0 asking asked
handle_logon_proof-authed_example = handle_logon_proof-authed env 0 asking asked-eq asked-status

returning : Session
returning = session reconnect_proof (
    3 ∷ replicate 16 5
    ++ reconnect_digest env (session reconnect_proof []) (replicate 16 5)
    ++ replicate 20 0
    ++ (0 ∷ []))

returned : Session
unfolding handle_reconnect_proof returning
returned = outcome returning (handle_reconnect_proof env returning)

returned-eq : handle_reconnect_proof env returning ≡ ok (true, returned)
unfolding handle_reconnect_proof returning returned mmo_wow.Auth.Session.bytes_of
    mmo_wow.Prelude.read_at mmo_wow.Auth.Proof.verify_version mmo_wow.Auth.Session.send_all
    mmo_wow.ByteBuffer.append mmo_wow.Prelude.write_at mmo_wow.Auth.Session.send_packet
    mmo_wow.ByteBuffer.contents mmo_wow.MessageBuffer.write mmo_wow.MessageBuffer.with_size
returned-eq = refl

returned-status : returned.status ≡ authed
unfolding returned mmo_wow.Auth.Session.bytes_of mmo_wow.Prelude.read_at
    mmo_wow.Auth.Proof.verify_version mmo_wow.Auth.Session.send_all mmo_wow.ByteBuffer.append
    mmo_wow.Prelude.write_at mmo_wow.Auth.Session.send_packet mmo_wow.ByteBuffer.contents
    mmo_wow.MessageBuffer.write mmo_wow.MessageBuffer.with_size
returned-status = refl

handle_reconnect_proof-authed_example : Reconnected env returning returned
handle_reconnect_proof-authed_example =
    handle_reconnect_proof-authed env returning returned-eq returned-status

verified : Srp6.verify crypto srp client_key client_key ≡ ok (none, record srp { used = true })
unfolding Srp6.verify
verified = refl
