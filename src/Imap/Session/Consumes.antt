-- ===== src/Imap/Session/Consumes.antt =====
-- The results that arrive: taking them from the channel and writing them ends.
use brev.Base.{
  ℕ, zero, suc, ◌≤◌, ◌<◌, ◌≡◌, refl, ◌≢◌, Option, none, some, List, [], ◌∷◌, arith, length,
}
use brev.Io.Finishes.{Ended, Finishes, Finishes-pure, Finishes-bind, Finishes-after}
use brev.Imap.Response.{Tag}
use brev.Imap.Queue.{
  Commands, remove_command, Delivery, delivered, nothing, known, ready_from, ready, wait_from, wait,
}
use brev.Imap.Ops.{OpResponse, OpResult, SelectResult, done, select_to_string}
use brev.Imap.Session.{
  Environment, State, not_authenticated, logout, authenticated, selected, Payload, ImapSession, Act,
  on_queue,
}
use brev.Imap.Session.Results.{length-remove_command}
use brev.Imap.Session.Finishes.{
  FindsResult, Attended, Attends, Finishes-become, Finishes-respond, Finishes-respond_with_tag,
}
use brev.Imap.Session.Loop.{consume_select, consume_ready, on_ready, consume_all_within}

module _ (e : Environment) where
  abbrev R : Type 0
  R = OpResult e.attributes

  -- After a result is taken from the channel, no command is in progress.
  Attended-known :
      {A : Type 0} (n k c : ℕ) (Q : A → ImapSession e → Type 0) (a : A) (rest : List (Delivery R))
      (tag : Tag) (o : Option Commands) (s : ImapSession e)
      → remove_command tag s.queue.commands ≡ o
      → length rest ≤ k
      → Attended e n (suc k) c s
      → ((v : ImapSession e) → Attended e n k 0 v → Q a v)
      → Ended Q (known R a rest o s.queue).0 (record s { queue = (known R a rest o s.queue).1 })
  unfolding known
  Attended-known n k c Q a rest tag none s h l t f = tt
  Attended-known n k c Q a rest tag (some cs) s h l t f =
      let fewer = length-remove_command tag s.queue.commands cs h in
      f _ (record {
        calm = t.calm;
        looks = l;
        busy = omega (arith, fewer, t.single);
        single = omega (arith, fewer, t.single);
        arrives = λ d. absurd (d (nil_left cs (omega (arith, fewer, t.single))));
      })
    where
      nil_left : (cs : Commands) → length cs ≤ 0 → cs ≡ []
      nil_left [] h = refl
      nil_left (c ∷ cs) h = absurd (omega arith)

  -- After a look into the channel.
  abbrev Looked : ℕ → ℕ → ℕ → Option (Payload e) → ImapSession e → Type 0
  Looked n k c none s = Attended e n k c s
  Looked n zero c (some p) s = ⊥
  Looked n (suc k) c (some p) s = Attended e n k c s

  Finishes-ready : (n k c : ℕ) → Finishes (Attended e n k c) (on_queue e (ready R)) (Looked n k c)
  unfolding on_queue ready ready_from
  Finishes-ready n k c = record { at = λ s h. looked k s.queue.rx s h h.looks h.arrives }
    where
      looked :
          (k : ℕ) (rx : List (Delivery R)) (s : ImapSession e)
          → Attended e n k c s
          → length rx ≤ k
          → (s.queue.commands ≢ [] → FindsResult e rx)
          → Ended
              (Looked n k c)
              (ready_from R rx s.queue).0
              (record s { queue = (ready_from R rx s.queue).1 })
      looked k [] s h l f = h
      looked k (nothing ∷ rest) s h l f = record {
        calm = h.calm;
        looks = omega arith;
        busy = h.busy;
        single = h.single;
        arrives = f;
      }
      looked zero (delivered tag r ∷ rest) s h l f = absurd (omega arith)
      looked (suc k) (delivered tag r ∷ rest) s h l f =
          Attended-known n k c (Looked n (suc k) c) (some (tag, r)) rest tag
            (remove_command tag s.queue.commands) s refl (omega arith) h
            (λ v t. record {
              calm = t.calm;
              looks = t.looks;
              busy = omega (arith, t.busy);
              single = t.single;
              arrives = t.arrives;
            })

  -- With a command in progress, the wait for a result ends.
  pub Finishes-wait :
      (n k c : ℕ)
      → Finishes
          (λ s. Attended e n k c s × (s.queue.commands ≢ []))
          (on_queue e (wait R))
          (λ _. Attended e n k 0)
  unfolding on_queue wait wait_from
  Finishes-wait n k c = record {
    at = λ s h. waited s.queue.rx s (h.0) ((h.0).looks) ((h.0).arrives (h.1));
  }
    where
      waited :
          (rx : List (Delivery R)) (s : ImapSession e)
          → Attended e n k c s
          → length rx ≤ k
          → FindsResult e rx
          → Ended
              (λ _. Attended e n k 0)
              (wait_from R rx s.queue).0
              (record s { queue = (wait_from R rx s.queue).1 })
      waited [] s h l f = absurd f
      waited (nothing ∷ rest) s h l f = waited rest s h (omega arith) f
      waited (delivered tag r ∷ rest) s h l f =
          Attended-known n k c (λ _. Attended e n k 0) (tag, r) rest tag
            (remove_command tag s.queue.commands) s refl (omega arith)
            (record {
              calm = h.calm;
              looks = omega (arith, h.looks);
              busy = h.busy;
              single = h.single;
              arrives = h.arrives;
            })
            (λ v t. t)

  module _ {n k c : ℕ} where
    Finishes-consume_select :
        (tag : Tag) (r : SelectResult e.attributes) (st : State)
        → Attends e n k c (consume_select e tag r st)
    unfolding consume_select
    Finishes-consume_select tag r (authenticated who) =
        Finishes-bind
          (Finishes-become e (
            selected
              (record { mailbox = r.mailbox.name; read_only = r.read_only; identity = who })))
          (λ _. Finishes-respond_with_tag e (some (select_to_string e.attributes r tag)))
    Finishes-consume_select tag r not_authenticated = record { at = λ s h. tt }
    Finishes-consume_select tag r logout = record { at = λ s h. tt }
    Finishes-consume_select tag r (selected chosen) = record { at = λ s h. tt }

    pub Finishes-consume_ready : (p : Payload e) → Attends e n k c (consume_ready e p)
    unfolding consume_ready
    Finishes-consume_ready (tag, done (OpResponse.select r)) = record {
      at = λ s h. (Finishes-consume_select tag r s.state).at s h;
    }
    Finishes-consume_ready (tag, done OpResponse.fetch) = Finishes-respond_with_tag e _
    Finishes-consume_ready (tag, done OpResponse.create) = Finishes-respond_with_tag e _
    Finishes-consume_ready (tag, done (OpResponse.list found)) = Finishes-respond_with_tag e _
    Finishes-consume_ready (tag, OpResult.failed err) = Finishes-respond e _

  fewer_looks : (n k c : ℕ) (s : ImapSession e) → Attended e n k c s → Attended e n (suc k) c s
  fewer_looks n k c s h = record {
    calm = h.calm;
    looks = omega (arith, h.looks);
    busy = h.busy;
    single = h.single;
    arrives = h.arrives;
  }

  Finishes-on_ready :
      (n k c : ℕ) (again : Act e (Unit {0})) (o : Option (Payload e))
      → ((j : ℕ) → j < k → Attends e n j c again)
      → Finishes (Looked n k c o) (on_ready e again o) (λ _. Attended e n k c)
  unfolding on_ready
  Finishes-on_ready n k c again none t = Finishes-pure (λ _. Attended e n k c) tt
  Finishes-on_ready n zero c again (some p) t = record { at = λ s h. absurd h }
  Finishes-on_ready n (suc k) c again (some p) t = Finishes-bind (Finishes-consume_ready p) (λ _.
      Finishes-after (λ _. Attended e n (suc k) c) (λ _. fewer_looks n k c) (t k (omega arith)))

  pub Finishes-consume_all :
      (fuel n k c : ℕ) → k < fuel → Attends e n k c (consume_all_within e fuel)
  unfolding consume_all_within
  Finishes-consume_all zero n k c less = absurd (omega arith)
  Finishes-consume_all (suc fuel) n k c less = Finishes-bind (Finishes-ready n k c) (λ o.
      Finishes-on_ready n k c (consume_all_within e fuel) o
        (λ j l. Finishes-consume_all fuel n j c (omega arith)))
