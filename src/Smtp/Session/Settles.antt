-- ===== src/Smtp/Session/Settles.antt =====
-- The rules that what the handlers do settles: each answers, and takes nothing from the client.
use brev.Base.{
  ℕ, ◌≡◌, refl, Bool, true, false, Option, none, some, List, [], ◌∷◌, Bytes, if◌then◌else◌,
}
use brev.Io.{Io, Async, returned, panicked, Stream, plain, tls, secured, pure, ◌>>◌}
use brev.Io.Settles.{Settles, Settles-pure, Settles-bind, Settles-perform}
use brev.Line.{upgrade, upgrade_stream, is_tls}
use brev.Smtp.Command.{
  Command, helo, ehlo, mail_from, rcpt_to, rset, data_, noop, quit, starttls, bdat, auth,
}
use brev.Smtp.Reader.Ends.{Settles-write_flush, Settles-bye}
use brev.Smtp.Session.{
  Crates, Envelope, by_data, by_bdat, Session, on_connection, say, modify, taken, taken_with,
  take_envelope, say_ehlo, handle_ehlo, starttls_on, handle_starttls, handle_mail, handle_rcpt,
  handle_auth, on_data, on_bdat, handle,
}

-- The handshake is over.
encrypt : Io (Unit {0})
encrypt w = (returned tt, record w { stream = tls })

Settles-encrypt : {n : ℕ} → Settles (λ w. w) n encrypt
unfolding encrypt
Settles-encrypt = record { at = λ w p h. record { ends = λ e. cc; prompt = p; fewer = h } }

Settles-upgrade_stream : {n : ℕ} (s : Stream) → Settles (λ w. w) n (upgrade_stream s)
unfolding upgrade_stream encrypt
Settles-upgrade_stream tls = record {
  at = λ w p h. record { ends = λ e. cc; prompt = p; fewer = h };
}
Settles-upgrade_stream plain = record {
  at = λ w p h. (Settles-bind (λ v. v) (Settles-perform secured) (λ _. Settles-encrypt)).at w p h;
}

-- The assertion of `upgrade`, on whether anything is buffered.
Settles-asserted :
    {n : ℕ} (b : Bool) {io : Io (Unit {0})}
    → Settles (λ w. w) n io
    → Settles (λ w. w) n (λ w. if b then (panicked, w) else io w)
Settles-asserted true t = record { at = λ w p h. record { ends = λ e. cc; prompt = p; fewer = h } }
Settles-asserted false t = record { at = λ w p h. t.at w p h }

Settles-upgrade : {n : ℕ} → Settles (λ w. w) n upgrade
unfolding upgrade
Settles-upgrade = record {
  at = λ w p h. (Settles-asserted w.buffered (Settles-upgrade_stream w.stream)).at w p h;
}

module _ (k : Crates) where
  abbrev pub Ends : {A : Type 0} → ℕ → Async (Session k) A → Type 0
  Ends n m = Settles (λ (s : Session k). s.connection) n m

  module _ {n : ℕ} where
    Ends-connection : {A : Type 0} {io : Io A} → Settles (λ w. w) n io → Ends n (on_connection k io)
    unfolding on_connection
    Ends-connection t = record { at = λ s p h. t.at s.connection p h }

    pub Ends-say : (text : Bytes) → Ends n (say k text)
    unfolding say
    Ends-say text = Ends-connection (Settles-write_flush text)

    pub Ends-modify :
        {f : Session k → Session k}
        → ((s : Session k) → (f s).connection ≡ s.connection)
        → Ends n (modify k f)
    Ends-modify e = record {
      at = λ s p h. rw (e s) (record { ends = λ z. cc; prompt = p; fewer = h });
    }

    infixl 5 ◌then◌
    ◌then◌ :
        {A B : Type 0} {m : Async (Session k) A} {m' : Async (Session k) B}
        → Ends n m
        → Ends n m'
        → Ends n (m >> m')
    t then t' = Settles-bind _ t (λ _. t')

    Ends-none : {A : Type 0} → Ends n (pure {A = Option A} none)
    Ends-none = Settles-pure _ none

    -- The action reads the session first.
    Ends-read :
        {A X : Type 0} (g : Session k → X) (m : X → Async (Session k) A)
        → ((x : X) → Ends n (m x))
        → Ends n (λ s. m (g s) s)
    Ends-read g m t = record { at = λ s p h. (t (g s)).at s p h }

    Ends-taken_with : (e : Envelope k) (rs : List k.mail.Address) → Ends n (taken_with k e rs)
    unfolding taken_with
    Ends-taken_with e [] = Ends-say _ then (Ends-modify (λ s. refl) then Ends-none)
    Ends-taken_with e (r ∷ rs) = Settles-pure _ (some e)

    Ends-taken : (e : Option (Envelope k)) → Ends n (taken k e)
    unfolding taken
    Ends-taken none = Ends-say _ then Ends-none
    Ends-taken (some e) = Ends-taken_with e e.recipients

    Ends-take_envelope : Ends n (take_envelope k)
    unfolding take_envelope
    Ends-take_envelope = record {
      at = λ s p h. (Ends-taken s.envelope).at (record s { envelope = none }) p h;
    }

    Ends-say_ehlo : Ends n (say_ehlo k)
    unfolding say_ehlo
    Ends-say_ehlo = record { at = λ s p h. (Ends-say _).at s p h }

    Ends-handle_ehlo : (domain : Bytes) → Ends n (handle_ehlo k domain)
    unfolding handle_ehlo
    Ends-handle_ehlo domain = Ends-modify (λ s. refl) then Ends-say_ehlo

    Ends-starttls_on : (encrypted configured : Bool) → Ends n (starttls_on k encrypted configured)
    unfolding starttls_on
    Ends-starttls_on true configured = Ends-say _
    Ends-starttls_on false false = Ends-say _
    Ends-starttls_on false true =
        Ends-say _ then (Ends-connection Settles-upgrade then Ends-modify (λ s. refl))

    Ends-handle_starttls : Ends n (handle_starttls k)
    unfolding handle_starttls
    Ends-handle_starttls = record {
      at = λ s p h. (Ends-starttls_on (is_tls s.connection) s.config.tls).at s p h;
    }

    Ends-handle_mail :
        (from : k.mail.Address) (d : Option Bytes) (e : Option (Envelope k))
        → Ends n (handle_mail k from d e)
    unfolding handle_mail
    Ends-handle_mail from none e = Ends-say _
    Ends-handle_mail from (some d) (some e) = Ends-say _
    Ends-handle_mail from (some d) none = Ends-modify (λ s. refl) then Ends-say _

    Ends-handle_rcpt : (to : k.mail.Address) (e : Option (Envelope k)) → Ends n (handle_rcpt k to e)
    unfolding handle_rcpt
    Ends-handle_rcpt to none = Ends-say _
    Ends-handle_rcpt to (some e) = Ends-modify (λ s. refl) then Ends-say _

    Ends-handle_auth : (e : Option (Envelope k)) (i : Option Bytes) → Ends n (handle_auth k e i)
    unfolding handle_auth
    Ends-handle_auth (some e) i = Ends-say _
    Ends-handle_auth none (some i) = Ends-say _
    Ends-handle_auth none none = Ends-say _

    Ends-on_data : (e : Option (Envelope k)) → Ends n (on_data k e)
    unfolding on_data
    Ends-on_data none = Ends-none
    Ends-on_data (some e) = Ends-say _ then Settles-pure _ (some (by_data e))

    Ends-on_bdat :
        (size : ℕ) (last : Bool) (e : Option (Envelope k)) → Ends n (on_bdat k size last e)
    unfolding on_bdat
    Ends-on_bdat size last none = Ends-none
    Ends-on_bdat size last (some e) = Settles-pure _ (some (by_bdat e size last))

    pub Ends-handle : (c : Command k.nom k.mail) → Ends n (handle k c)
    unfolding handle
    Ends-handle (helo domain) = Ends-modify (λ s. refl) then (Ends-say _ then Ends-none)
    Ends-handle (ehlo domain) = Ends-handle_ehlo domain then Ends-none
    Ends-handle (mail_from from) =
        record { at = λ s p h. (Ends-handle_mail from s.helo_domain s.envelope).at s p h }
        then Ends-none
    Ends-handle (rcpt_to to) =
        Ends-read (λ s. s.envelope) (handle_rcpt k to) (Ends-handle_rcpt to) then Ends-none
    Ends-handle data_ = Settles-bind _ Ends-take_envelope Ends-on_data
    Ends-handle rset = Ends-modify (λ s. refl) then (Ends-say _ then Ends-none)
    Ends-handle (bdat size last) = Settles-bind _ Ends-take_envelope (Ends-on_bdat size last)
    Ends-handle quit = Ends-connection Settles-bye then Ends-none
    Ends-handle noop = Ends-say _ then Ends-none
    Ends-handle starttls = Ends-handle_starttls then Ends-none
    Ends-handle (auth m r) =
        record { at = λ s p h. (Ends-handle_auth s.envelope s.identity).at s p h } then Ends-none
