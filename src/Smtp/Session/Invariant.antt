-- ===== src/Smtp/Session/Invariant.antt =====
-- What holds of a session at every point of the dialogue, and of every message that it hands over.
use brev.Base.{
  ap, ℕ, zero, suc, ◌≡◌, refl, ◌≢◌, Bool, true, false, Option, none, some, List, [], ◌∷◌, length,
  Bytes,
}
use brev.Io.{Async, pure, ◌>>◌}
use brev.Io.Laws.{Triple, Triple-bind, Triple-pure, Triple-weaken, Triple-stall}
use brev.Smtp.Reader.{bye, read_cmd}
use brev.Smtp.Command.{
  Command, helo, ehlo, mail_from, rcpt_to, rset, data_, noop, quit, starttls, bdat, auth,
}
use brev.Smtp.Session.{
  Crates, Envelope, Incoming, by_data, by_bdat, Session, say, modify, greet, taken, taken_with,
  take_envelope, handle_rcpt, on_data, on_bdat, handle, after_handle, on_command, loop_within,
  greet_once, next_message,
}
use brev.Smtp.Session.Keeps.{
  Triple-said, IsValid, Turned, Detached, IsValid-detached, Triple-connection, Triple-say,
  Triple-modify, Turned-some, Turned-none, then_turn, Triple-read, Keeps, handle_mail-IsValid,
  handle_rcpt-field, handle_auth-IsValid, new_hello, handle_ehlo-IsValid, handle_starttls-IsValid,
}

module _ (k : Crates) where
  -- What `take_envelope` gives: an envelope that can be sent, and then no transaction is left.
  record Taken (r : Option (Envelope k)) (s : Session k) : Type 0 where
    valid : IsValid k s
    ready : (e : Envelope k) → r ≡ some e → (e.recipients ≢ []) × (s.envelope ≡ none)

  Taken-detached : (r : Option (Envelope k)) → Detached k (Taken r)
  Taken-detached r s w t = record { valid = IsValid-detached k s w t.valid; ready = t.ready }

  Taken-none : (s : Session k) → IsValid k s → Taken none s
  Taken-none s h = record { valid = h; ready = λ e p. cc }

  -- The fields of `self` while `take_envelope` holds the envelope itself.
  record Emptied (s : Session k) : Type 0 where
    valid : IsValid k s
    empty : s.envelope ≡ none
    greeted : s.helo_domain ≢ none

  Emptied-detached : Detached k Emptied
  Emptied-detached s w h = record {
    valid = IsValid-detached k s w h.valid;
    empty = h.empty;
    greeted = h.greeted;
  }

  taken_with-Taken :
      (e : Envelope k) (rs : List k.mail.Address)
      → e.recipients ≡ rs
      → Triple Emptied (taken_with k e rs) Taken (IsValid k)
  unfolding taken_with
  taken_with-Taken e [] h = Triple-bind (Triple-said k Emptied-detached (λ s h. h.valid) _) λ _.
      Triple-bind
        (Triple-modify k {P = Emptied} {Q = IsValid k} {E = IsValid k}
          (λ s v. record { helo_first = λ z. absurd (v.greeted z); anonymous = v.valid.anonymous }))
        (λ _. Triple-weaken (IsValid k) Taken-none (Triple-pure Taken none))
  taken_with-Taken e (a ∷ rest) h =
      Triple-weaken Emptied
        (λ s v. record {
          valid = v.valid;
          ready = λ d p.
              let same : e ≡ d = cc in
              (λ z. cc (ap (λ (x : Envelope k). x.recipients) same), v.empty);
        })
        (Triple-pure Taken (some e))

  taken-Taken :
      (e : Option (Envelope k))
      → Triple
          (λ s.
            (IsValid k) s
            × (s.envelope ≡ none)
            × ((d : Envelope k) → e ≡ some d → s.helo_domain ≢ none))
          (taken k e)
          Taken
          (IsValid k)
  unfolding taken
  taken-Taken none =
      Triple-weaken _ (λ s h. h.0)
        (Triple-bind (Triple-say k _)
          (λ _. Triple-weaken (IsValid k) Taken-none (Triple-pure Taken none)))
  taken-Taken (some e) =
      Triple-weaken _ (λ s h. record { valid = h.0; empty = h.1; greeted = h.2 e refl })
        (taken_with-Taken e e.recipients refl)

  take_envelope-Taken : Triple (IsValid k) (take_envelope k) Taken (IsValid k)
  unfolding take_envelope
  take_envelope-Taken = record {
    at = λ s h.
        (taken-Taken s.envelope).at (record s { envelope = none })
          (
            record { helo_first = λ z. refl; anonymous = h.anonymous },
            refl,
            λ d p z. cc (p, h.helo_first z),
          );
  }

  -- `handle`, arm by arm.
  on_data-Turned : (e : Option (Envelope k)) → Triple (Taken e) (on_data k e) (Turned k) (IsValid k)
  unfolding on_data
  on_data-Turned none =
      Triple-weaken _ (λ s t. (Turned-none k) s t.valid) (Triple-pure (Turned k) none)
  on_data-Turned (some e) =
      Triple-bind (Triple-said k (Taken-detached (some e)) (λ s t. t.valid) _) λ _.
        Triple-weaken _ (λ s t. (Turned-some k) (by_data e) s t.valid (t.ready e refl))
          (Triple-pure (Turned k) (some (by_data e)))

  on_bdat-Turned :
      (size : ℕ) (last : Bool) (e : Option (Envelope k))
      → Triple (Taken e) (on_bdat k size last e) (Turned k) (IsValid k)
  unfolding on_bdat
  on_bdat-Turned size last none =
      Triple-weaken _ (λ s t. (Turned-none k) s t.valid) (Triple-pure (Turned k) none)
  on_bdat-Turned size last (some e) =
      Triple-weaken _ (λ s t. (Turned-some k) (by_bdat e size last) s t.valid (t.ready e refl))
        (Triple-pure (Turned k) (some (by_bdat e size last)))

  then_say :
      {f : Session k → Session k} (text : Bytes)
      → ((s : Session k) → IsValid k s → IsValid k (f s))
      → Triple (IsValid k) (modify k f >> (say k text >> pure none)) (Turned k) (IsValid k)
  then_say text h =
      Triple-bind (Triple-modify k {P = IsValid k} {Q = IsValid k} {E = IsValid k} h)
        (λ _. (then_turn k) (Triple-say k text))

  -- From a valid session every command, whatever the connection does, leaves a valid session; and the
  -- message that it hands over, if any, has a recipient and is no longer in the session.
  pub handle-Turned :
      (c : Command k.nom k.mail) → Triple (IsValid k) (handle k c) (Turned k) (IsValid k)
  unfolding handle
  handle-Turned (helo domain) = then_say _ (new_hello k domain)
  handle-Turned (ehlo domain) = then_turn k (handle_ehlo-IsValid k domain)
  handle-Turned (mail_from from) = then_turn k (handle_mail-IsValid k from)
  handle-Turned (rcpt_to to) =
      (then_turn k) (Triple-read k (λ s. s.envelope) (handle_rcpt k to) (handle_rcpt-field k to))
  handle-Turned data_ = Triple-bind take_envelope-Taken on_data-Turned
  handle-Turned rset =
      then_say _ (λ s h. record { helo_first = λ z. refl; anonymous = h.anonymous })
  handle-Turned (bdat size last) = Triple-bind take_envelope-Taken (on_bdat-Turned size last)
  handle-Turned quit = then_turn k (Triple-connection k bye (IsValid-detached k))
  handle-Turned noop = then_turn k (Triple-say k _)
  handle-Turned starttls = then_turn k (handle_starttls-IsValid k)
  handle-Turned (auth m r) =
      (then_turn k) (record { at = λ s h. (handle_auth-IsValid k s.envelope s.identity).at s h })

  -- The loop.
  after_handle-Turned :
      (again : Async (Session k) (Option (Incoming k))) (r : Option (Incoming k))
      → Triple (IsValid k) again (Turned k) (IsValid k)
      → Triple (Turned k r) (after_handle k again r) (Turned k) (IsValid k)
  unfolding after_handle
  after_handle-Turned again none t = Triple-weaken _ (λ s h. h.valid) t
  after_handle-Turned again (some m) t = Triple-pure (Turned k) (some m)

  on_command-Turned :
      (again : Async (Session k) (Option (Incoming k))) (c : Option (Command k.nom k.mail))
      → Triple (IsValid k) again (Turned k) (IsValid k)
      → Triple (IsValid k) (on_command k again c) (Turned k) (IsValid k)
  unfolding on_command
  on_command-Turned again none t =
      Triple-weaken (IsValid k) (Turned-none k) (Triple-pure (Turned k) none)
  on_command-Turned again (some c) t =
      Triple-bind (handle-Turned c) (λ r. after_handle-Turned again r t)

  loop_within-Turned : (n : ℕ) → Triple (IsValid k) (loop_within k n) (Turned k) (IsValid k)
  unfolding loop_within
  loop_within-Turned zero = Triple-stall (IsValid k) (Turned k) (λ s h. h)
  loop_within-Turned (suc n) =
      Triple-bind (Triple-connection k (read_cmd k.nom k.mail) (IsValid-detached k))
        (λ c. on_command-Turned (loop_within k n) c (loop_within-Turned n))

  greet_once-IsValid : (greeted : Bool) → Keeps k (greet_once k greeted)
  unfolding greet_once greet
  greet_once-IsValid true = Triple-pure (λ _. (IsValid k)) tt
  greet_once-IsValid false =
      Triple-bind (record { at = λ s h. (Triple-say k _).at s h })
        λ _.
          (Triple-modify k) {P = IsValid k} {Q = IsValid k} {E = IsValid k}
            (λ s h. record { helo_first = h.helo_first; anonymous = h.anonymous })

  -- From a valid session, whatever the client sends and however the connection fails: a call of
  -- `next_message` leaves a valid session, and the message that it returns has a recipient and is no
  -- longer in the session.
  pub next_message-Turned : Triple (IsValid k) (next_message k) (Turned k) (IsValid k)
  unfolding next_message
  next_message-Turned =
      Triple-bind (record { at = λ s h. (greet_once-IsValid s.greeted).at s h })
        λ _. record { at = λ s h. (loop_within-Turned (suc (length s.connection.incoming))).at s h }
