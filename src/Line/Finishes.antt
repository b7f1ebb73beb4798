-- ===== src/Line/Finishes.antt =====
-- crates/line/src/lib.rs: its operations end while the client closes the connection in the end.
use brev.Base.{
  Bool, true, false, ℕ, zero, suc, ◌≤◌, List, [], ◌∷◌, arith, length, Bytes, if◌then◌else◌,
}
use brev.Io.{
  World, Io, Incoming, chunk, fault, silence, returned, panicked, Stream, plain, tls, secured,
  wrote, flushed, closed, read_until, receive_from,
}
use brev.Io.Settles.{Prompt}
use brev.Io.Finishes.{Ended, Finishes, Finishes-bind, Closes, Calm, Finishes-perform}
use brev.Line.{
  ReadLine, line, eof, read_line, line_of, write, flush, write_flush, shutdown, upgrade,
  upgrade_stream,
}

pub Finishes-write : {n : ℕ} (text : Bytes) → Finishes (Calm n) (write text) (λ _. Calm n)
unfolding write
Finishes-write text = Finishes-perform (wrote text)

pub Finishes-write_flush :
    {n : ℕ} (text : Bytes) → Finishes (Calm n) (write_flush text) (λ _. Calm n)
unfolding write_flush write flush
Finishes-write_flush text =
    Finishes-bind (Finishes-perform (wrote text)) (λ _. Finishes-perform flushed)

pub Finishes-shutdown : {n : ℕ} → Finishes (Calm n) shutdown (λ _. Calm n)
unfolding shutdown
Finishes-shutdown = Finishes-perform closed

-- The handshake is over.
encrypt : Io (Unit {0})
encrypt w = (returned tt, record w { stream = tls })

Finishes-encrypt : {n : ℕ} → Finishes (Calm n) encrypt (λ _. Calm n)
unfolding encrypt
Finishes-encrypt = record {
  at = λ w h. record { prompt = h.prompt; closes = h.closes; fewer = h.fewer };
}

Finishes-upgrade_stream : {n : ℕ} (s : Stream) → Finishes (Calm n) (upgrade_stream s) (λ _. Calm n)
unfolding upgrade_stream encrypt
Finishes-upgrade_stream tls = record { at = λ w h. h }
Finishes-upgrade_stream plain = record {
  at = λ w h. (Finishes-bind (Finishes-perform secured) (λ _. Finishes-encrypt)).at w h;
}

pub Finishes-upgrade : {n : ℕ} → Finishes (Calm n) upgrade (λ _. Calm n)
unfolding upgrade
Finishes-upgrade {n} = record { at = λ w h. asserted w.buffered w h }
  where
    asserted :
        (b : Bool) (w : World)
        → Calm n w
        → Ended
            (λ _. Calm n)
            (if b then (panicked, w) else upgrade_stream w.stream w).0
            (if b then (panicked, w) else upgrade_stream w.stream w).1
    asserted true w h = tt
    asserted false w h = (Finishes-upgrade_stream w.stream).at w h

-- A line has taken an answer.
abbrev pub AfterLine : ℕ → ReadLine → World → Type 0
AfterLine zero l w = ⊥
AfterLine (suc n) eof w = Unit
AfterLine (suc n) (line buf) w = Calm n w

pub Finishes-read_line : (n : ℕ) → Finishes (Calm (suc n)) (read_line []) (AfterLine (suc n))
unfolding read_line read_until receive_from line_of
Finishes-read_line n = record { at = λ w h. on_incoming w.incoming w h.prompt h.closes h.fewer }
  where
    on_incoming :
        (inc : List Incoming) (w : World)
        → Prompt w.answers
        → Closes inc
        → length inc ≤ suc n
        → Ended
            (AfterLine (suc n))
            (read_line [] (record w { incoming = inc })).0
            (read_line [] (record w { incoming = inc })).1
    on_incoming [] w p c l = absurd c
    on_incoming (chunk [] more ∷ rest) w p c l = tt
    on_incoming (chunk (b ∷ bs) more ∷ rest) w p c l = record {
      prompt = p;
      closes = c;
      fewer = omega arith;
    }
    on_incoming (fault e ∷ rest) w p c l = tt
    on_incoming (silence ∷ rest) w p c l = absurd c
