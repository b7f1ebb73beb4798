-- ===== src/Tests/Listener.antt =====
-- crates/line/src/stream.rs and src/listener.rs at concrete inputs.
use brev.Base.{ℕ, ◌≡◌, ◌≢◌, refl, Bool, true, false, none, some, [], ◌∷◌, codes}
use brev.Io.{World, IoError, timed_out, Stream}
use brev.Io
use brev.Line.{upgrade_stream}
use brev.Line.Encryption.{
  Endpoint, Handshake, secured, refused, waits, Tls, MaybeTls, plain, tls, empty, called, upgrade,
}
use brev.Line.Encryption
use brev.Line.Encryption.Upgrades.{
  read, write, upgrades, call_all, Stays, call_all-Stays, abandoned_upgrade, outcome_of, stream_of,
  upgrade_stream-upgrade,
}
use brev.Listener.{MultiListener, Round, accepted, pending, accept, serve}
use brev.Listener.Serving.{
  AllFrom, serve-AllFrom, and_then, nothing, FailsHandshake, failed_handshake_stops,
}
use brev.Tests.Samples.{says}

-- A stream is a number, and is always ready.
abbrev socket : Endpoint ℕ
socket = record {
  poll_read = λ room s. (Encryption.Poll.ready [], s);
  poll_write = λ bs s. (Encryption.Poll.ready 0, s);
  poll_flush = λ s. (Encryption.Poll.ready tt, s);
  poll_shutdown = λ s. (Encryption.Poll.ready tt, s);
}

abbrev shakes : ℕ → Bool → Handshake ℕ ℕ
shakes s true = secured s
shakes s false = refused timed_out s

shakes_end : (s : ℕ) (config : Bool) → shakes s config ≢ waits
shakes_end s true h = cc
shakes_end s false h = cc

abbrev sample : Tls
sample = record {
  Plain = ℕ;
  Secure = ℕ;
  Config = Bool;
  upgrade = shakes;
  plain_side = socket;
  secure_side = socket;
}

-- A peer that never ends its handshake.
abbrev sleepy : Tls
sleepy = record {
  Plain = ℕ;
  Secure = ℕ;
  Config = Bool;
  upgrade = λ s config. waits;
  plain_side = socket;
  secure_side = socket;
}

call_all-Stays_example :
    (s : MaybeTls sample) × (call_all sample
        (upgrades false ∷ read 9 ∷ upgrades true ∷ write (codes "hi") ∷ [])
        (plain 7)
      ≡ some s)
    × Stays sample (plain 7) s
call_all-Stays_example =
    call_all-Stays sample shakes_end
      (upgrades false ∷ read 9 ∷ upgrades true ∷ write (codes "hi") ∷ []) (plain 7) tt

abandoned_upgrade_example :
    (upgrade sleepy true (plain 7) ≡ called Encryption.Poll.pending empty)
    × (call_all sleepy (upgrades true ∷ write (codes "hi") ∷ []) (plain 7) ≡ none)
abandoned_upgrade_example = abandoned_upgrade sleepy true 7 (write (codes "hi")) [] refl

-- The environment refuses the handshake.
abbrev refusing : World
refusing = record (says []) { answers = Io.Answer.refused timed_out ∷ [] }

upgrade_stream-upgrade_example :
    ((upgrade_stream Stream.plain refusing).0 ≡ outcome_of sample (upgrade sample false (plain 7)))
    × (some (upgrade_stream Stream.plain refusing).1.stream
        ≡ stream_of sample (upgrade sample false (plain 7)))
upgrade_stream-upgrade_example =
    upgrade_stream-upgrade sample false (plain 7) refusing refl ([], refl, shakes_end 7 false)

abbrev listener : MultiListener sample
listener = record { tls = some false }

abbrev plain_round : Round sample
plain_round = record { plain_first = true; at_plain = accepted 3 0; at_tls = pending }

abbrev bad_round : Round sample
bad_round = record { plain_first = true; at_plain = pending; at_tls = accepted 4 0 }

serve-AllFrom_example :
    AllFrom sample listener
      (plain_round ∷ bad_round ∷ [])
      (serve sample listener (plain_round ∷ bad_round ∷ [])).spawned
serve-AllFrom_example = serve-AllFrom sample listener (plain_round ∷ bad_round ∷ [])

bad_round-FailsHandshake : FailsHandshake sample listener bad_round timed_out
bad_round-FailsHandshake = record {
  config = false;
  peer = 4;
  addr = 0;
  given_back = 4;
  configured = refl;
  nobody = refl;
  connects = refl;
  fails = refl;
}

failed_handshake_stops_example :
    serve sample listener (plain_round ∷ bad_round ∷ plain_round ∷ [])
    ≡ record { spawned = plain 3 ∷ []; stopped = some timed_out }
unfolding accept
failed_handshake_stops_example =
    failed_handshake_stops sample listener (plain_round ∷ []) (plain_round ∷ []) (plain 3 ∷ [])
      bad_round timed_out (and_then refl nothing) bad_round-FailsHandshake
