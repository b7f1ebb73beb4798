-- ===== src/Smtp/Serve/Received.antt =====
-- What the server has of the messages that it has accepted.
use brev.Base.{
  ◌≡◌, refl, ◌≢◌, true, Option, none, some, List, [], ◌∷◌, All, Bytes, Bool-cases, inl, inr,
}
use brev.Base.Utf8.{is_utf8}
use brev.Io.{World, Outcome, returned, failed, stalled, panicked}
use brev.Io.Laws.{Post}
use brev.Smtp.Reading.{ReadEnd, whole, errored, crashed, unfinished}
use brev.Smtp.Data.{ReadBuf}
use brev.Smtp.Message.{MessageBody, accept_message}
use brev.Smtp.Session.{Crates, Envelope, Incoming, Session, next_message}
use brev.Smtp.Session.Keeps.{IsValid, IsValid-detached, Turned, envelope_of}
use brev.Smtp.Session.Invariant.{next_message-Turned}
use brev.Smtp.Serve.{End, Arriving, Ran, stop, on_accepted, on_body, on_message, handle_connection}

module _ (k : Crates) (r : ReadBuf) where
  -- Each message has a recipient, and its text is UTF-8; the session is valid.
  pub record IsSound (ran : Ran k r) : Type 0 where
    pub sound : All (λ m. (m.0.recipients ≢ []) × (is_utf8 m.1 ≡ true)) ran.received
    pub valid : IsValid k ran.session

  abbrev Goes : (Session k → Ran k r) → Type 0
  Goes again = (s : Session k) → IsValid k s → IsSound (again s)

  IsSound-stop : (end : End) (s : Session k) → IsValid k s → IsSound (stop k r end s)
  IsSound-stop end s v = record { sound = tt; valid = v }

  IsSound-on_accepted :
      (again : Session k → Ran k r) (e : Envelope k) (text : Bytes) (s : Session k)
      (o : Outcome (Unit {0})) (w : World)
      → Goes again
      → IsValid k s
      → e.recipients ≢ []
      → is_utf8 text ≡ true
      → IsSound (on_accepted k r again (e, text) s o w)
  IsSound-on_accepted again e text s (returned u) w g v h t =
      let rest = g (record s { connection = w }) (IsValid-detached k s w v) in
      record { sound = ((h, t), rest.sound); valid = rest.valid }
  IsSound-on_accepted again e text s (failed z) w g v h t =
      IsSound-stop _ _ (IsValid-detached k s w v)
  IsSound-on_accepted again e text s stalled w g v h t = IsSound-stop _ _ (IsValid-detached k s w v)
  IsSound-on_accepted again e text s panicked w g v h t =
      IsSound-stop _ _ (IsValid-detached k s w v)

  IsSound-on_body :
      (again : Session k → Ran k r) (e : Envelope k) (s : Session k)
      (body : ReadEnd (MessageBody × World))
      → Goes again
      → IsValid k s
      → e.recipients ≢ []
      → IsSound (on_body k r again e s body)
  unfolding on_body
  IsSound-on_body again e s (whole text (body, w)) g v h = elim (Bool-cases (is_utf8 text)) [
    | inl t ↦ rw t (
        IsSound-on_accepted again e text s (accept_message body w).0 (accept_message body w).1 g v h
          t)
    | inr t ↦ rw t (IsSound-stop _ _ (IsValid-detached k s w v))
  ]
  IsSound-on_body again e s (errored (body, w)) g v h = IsSound-stop _ _ (IsValid-detached k s w v)
  IsSound-on_body again e s (crashed (body, w)) g v h = IsSound-stop _ _ (IsValid-detached k s w v)
  IsSound-on_body again e s (unfinished (body, w)) g v h =
      IsSound-stop _ _ (IsValid-detached k s w v)

  IsSound-on_message :
      (again : Session k → Ran k r) (a : Arriving k r) (o : Outcome (Option (Incoming k)))
      (s : Session k)
      → Goes again
      → Post (Turned k) (IsValid k) o s
      → IsSound (on_message k r again a o s)
  unfolding on_message
  IsSound-on_message again a (returned none) s g t = IsSound-stop _ s t.valid
  IsSound-on_message again a (returned (some m)) s g t =
      IsSound-on_body again (envelope_of k m) s _ g t.valid ((t.handed m refl).0)
  IsSound-on_message again a (failed z) s g t = IsSound-stop _ s t
  IsSound-on_message again a stalled s g t = IsSound-stop _ s t
  IsSound-on_message again a panicked s g t = IsSound-stop _ s t

  -- From a valid session, whatever the client sends in commands and in the bodies of its messages, and
  -- however the connection fails: each message that the server has accepted has a recipient and a text
  -- in UTF-8, and the session is valid when the connection ends.
  pub handle_connection-IsSound :
      (arriving : List (Arriving k r)) (s : Session k)
      → IsValid k s
      → IsSound (handle_connection k r arriving s)
  unfolding handle_connection
  handle_connection-IsSound [] s v = IsSound-stop _ s v
  handle_connection-IsSound (a ∷ rest) s v =
      IsSound-on_message (handle_connection k r rest) a (next_message k s).0 (next_message k s).1
        (handle_connection-IsSound rest) ((next_message-Turned k).at s v)
