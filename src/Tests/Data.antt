-- ===== src/Tests/Data.antt =====
-- crates/smtp/src/message/data.rs at concrete inputs.
use brev.Base.{◌≡◌, refl, ◌≢◌, ◌↔◌, ◌++◌, none, some, List, [], ◌∷◌, arith, Bytes, codes, inr}
use brev.Smtp.Data.{
  start, eof, cr_lf, cr_lf_dot_dot_cr, Arrival, byte, arm, follow, advance_within, advance,
  on_arrival, poll_from, poll_read, ready, wait,
}
use brev.Smtp.Data.Bounds.{Overflows, advance_panics_iff}
use brev.Smtp.Data.Message.{Reads, Reads-send, Reads-doubled_dot, empty_message_unended}
use brev.Smtp.Data.Polled.{bytes}
use brev.Smtp.Data.Polls.{Polls, done, call, Polls-decode, Polls-decode_partial}
use brev.Smtp.Data.Decode.{decode, decode_from}
use brev.Smtp.Data.Pure.{held}
use brev.Smtp.Data.RoundTrip.{send, text, received_rest}
use brev.Tests.Samples.{Buffer, put, read_buf}

abbrev all_bytes : Bytes → List Arrival
all_bytes [] = []
all_bytes (c ∷ cs) = byte c ∷ all_bytes cs

abbrev fresh : Buffer
fresh = record { content = []; room = 8 }

-- "Hi", a lone dot, and the end, with the next command behind it.
abbrev wire : List Arrival
wire = all_bytes (codes "Hi\r\n..\r\n.\r\nQUIT\r\n")

decode-wire : decode (bytes wire) ≡ (codes "Hi\r\n.\r\n", some (codes "QUIT\r\n"))
unfolding decode_from
decode-wire = refl

Polls-decode_example :
    (rest : List Arrival) × Polls read_buf eof rest start wire (codes "Hi\r\n.\r\n")
    × (bytes rest ≡ codes "QUIT\r\n")
Polls-decode_example =
    Polls-decode read_buf fresh (omega arith) wire (codes "Hi\r\n.\r\n") (codes "QUIT\r\n")
      decode-wire

-- As much room as `poll_read` asks for.
abbrev five : Buffer
five = record { content = []; room = 5 }

advance_panics_iff_example :
    (advance read_buf cr_lf_dot_dot_cr b'x' five ≡ none) ↔ Overflows cr_lf_dot_dot_cr b'x'
advance_panics_iff_example =
    advance_panics_iff read_buf cr_lf_dot_dot_cr b'x' five (λ e. cc) (omega arith)

sent : bytes wire ≡ send (codes "Hi") (codes "." ∷ []) (codes "QUIT\r\n")
unfolding send
sent = refl

Reads-send_example :
    Reads read_buf fresh (omega arith) wire (text (codes "Hi") (codes "." ∷ [])) (codes "QUIT\r\n")
Reads-send_example =
    Reads-send read_buf fresh (omega arith) wire (codes "Hi") (codes "." ∷ []) (codes "QUIT\r\n")
      (refl, (refl, tt)) refl (((refl, tt), inr refl), tt) sent

-- Two lines behind the line "Hi", of which one begins with a dot and goes on.
abbrev dotted : List Arrival
dotted = all_bytes (codes "Hi\r\n..x\r\ny\r\n.\r\n")

dotted_sent : bytes dotted ≡ send (codes "Hi") (codes ".x" ∷ codes "y" ∷ []) []
unfolding send
dotted_sent = refl

Reads-doubled_dot_example :
    Reads read_buf fresh (omega arith) dotted (codes "Hi\r\n..x\r\ny\r\n") []
unfolding received_rest
Reads-doubled_dot_example =
    Reads-doubled_dot read_buf fresh (omega arith) dotted (codes "Hi") (codes ".x" ∷ codes "y" ∷ [])
      [] (refl, (refl, tt)) refl ((refl, (refl, tt)), ((refl, tt), tt)) dotted_sent

abbrev empty : List Arrival
empty = all_bytes (codes ".\r\n")

-- One call gives the dot, and another takes what is behind it.
dot_read :
    poll_read read_buf empty start fresh
    ≡ some (ready, start, record { content = codes "."; room = 7 }, all_bytes (codes "\r\n"))
unfolding poll_read poll_from on_arrival advance advance_within arm follow put
dot_read = refl

end_held : poll_read read_buf (all_bytes (codes "\r\n")) start fresh ≡ some (wait, cr_lf, fresh, [])
unfolding poll_read poll_from on_arrival advance advance_within arm follow
end_held = refl

empty_polls : Polls read_buf cr_lf [] start empty (codes ".")
empty_polls =
    call (codes ".") (omega arith) dot_read refl
      (call [] (omega arith) end_held refl (done refl refl))

empty_message_unended_example : cr_lf ≢ eof
empty_message_unended_example =
    empty_message_unended read_buf {s' = cr_lf} {rest = []} {arrivals = empty} {out = codes "."}
      refl empty_polls

Polls-decode_partial_example :
    (read : Bytes) × (bytes empty ≡ read ++ bytes [])
    × (decode read ≡ (codes "." ++ held cr_lf, none))
Polls-decode_partial_example =
    Polls-decode_partial read_buf {s' = cr_lf} {rest = []} {arrivals = empty} {out = codes "."}
      empty_polls (λ e. cc)
