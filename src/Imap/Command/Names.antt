-- ===== src/Imap/Command/Names.antt =====
-- The names of commands, and what the parser does behind each.
use brev.Base.{
  ◌≡◌, refl, Bool, false, Option, none, some, [], ◌++◌, take, Bytes, codes, same, split_once,
}
use brev.Flags.{Bitflags}
use brev.Nom.{Nom}
use brev.Imap.Capability.{capability_flags}
use brev.Imap.MailboxStatus.{item_flags}
use brev.Imap.Command.{Command, ok}
use brev.Imap.Command.Args.{
  one_arg, two_args, fetch_args, authenticate_args, enable_args, status_args,
}
use brev.Imap.Command.Parse.{or_syntax_err, parse_plain, parse_either}

module _ (caps : Bitflags capability_flags) (items : Bitflags item_flags) (nom : Nom) where
  abbrev C : Type 0
  C = Command caps items

  -- The commands without arguments, with one string and with two, each with its name.
  pub data Bare : C → Bytes → Type 0 where
    capability : Bare Command.capability (codes "CAPABILITY")
    noop : Bare Command.noop (codes "NOOP")
    logout : Bare Command.logout (codes "LOGOUT")
    starttls : Bare Command.starttls (codes "STARTTLS")
    namespace : Bare Command.namespace (codes "NAMESPACE")
    append : Bare Command.append (codes "APPEND")
    idle : Bare Command.idle (codes "IDLE")
    close : Bare Command.close (codes "CLOSE")
    unselect : Bare Command.unselect (codes "UNSELECT")

  pub data TakesOne : (Bytes → C) → Bytes → Type 0 where
    select : TakesOne Command.select (codes "SELECT")
    examine : TakesOne Command.examine (codes "EXAMINE")
    create : TakesOne Command.create (codes "CREATE")
    delete : TakesOne Command.delete (codes "DELETE")
    subscribe : TakesOne Command.subscribe (codes "SUBSCRIBE")
    unsubscribe : TakesOne Command.unsubscribe (codes "UNSUBSCRIBE")

  pub data TakesTwo : (Bytes → Bytes → C) → Bytes → Type 0 where
    login : TakesTwo Command.login (codes "LOGIN")
    rename : TakesTwo Command.rename (codes "RENAME")
    list : TakesTwo Command.list (codes "LIST")

  -- The commands that UID may stand before, but for FETCH.
  pub data TakesUid : (Bool → C) → Bytes → Type 0 where
    expunge : TakesUid Command.expunge (codes "EXPUNGE")
    search : TakesUid Command.search_ (codes "SEARCH")
    store : TakesUid Command.store (codes "STORE")
    copy : TakesUid Command.copy (codes "COPY")
    move : TakesUid Command.move_ (codes "MOVE")

  pub parse_plain-Bare :
      {c : C} {name : Bytes} (i : Bytes) → Bare c name → parse_plain caps items nom name i ≡ ok c
  unfolding parse_plain same
  parse_plain-Bare i capability = refl
  parse_plain-Bare i noop = refl
  parse_plain-Bare i logout = refl
  parse_plain-Bare i starttls = refl
  parse_plain-Bare i namespace = refl
  parse_plain-Bare i append = refl
  parse_plain-Bare i idle = refl
  parse_plain-Bare i close = refl
  parse_plain-Bare i unselect = refl

  or_syntax_err-some :
      (o : Option (Bytes × C)) (message : Bytes) (c : C)
      → o ≡ some ([], c)
      → or_syntax_err caps items nom o message ≡ ok c
  unfolding or_syntax_err
  or_syntax_err-some o message c h = rw h refl

  pub parse_plain-TakesOne :
      {make : Bytes → C} {name : Bytes} (i : Bytes) (c : C)
      → TakesOne make name
      → one_arg caps items nom make i ≡ some ([], c)
      → parse_plain caps items nom name i ≡ ok c
  unfolding parse_plain same
  parse_plain-TakesOne i c select h = or_syntax_err-some _ _ c h
  parse_plain-TakesOne i c examine h = or_syntax_err-some _ _ c h
  parse_plain-TakesOne i c create h = or_syntax_err-some _ _ c h
  parse_plain-TakesOne i c delete h = or_syntax_err-some _ _ c h
  parse_plain-TakesOne i c subscribe h = or_syntax_err-some _ _ c h
  parse_plain-TakesOne i c unsubscribe h = or_syntax_err-some _ _ c h

  pub parse_plain-TakesTwo :
      {make : Bytes → Bytes → C} {name : Bytes} (i : Bytes) (c : C)
      → TakesTwo make name
      → two_args caps items nom make i ≡ some ([], c)
      → parse_plain caps items nom name i ≡ ok c
  unfolding parse_plain same
  parse_plain-TakesTwo i c login h = or_syntax_err-some _ _ c h
  parse_plain-TakesTwo i c rename h = or_syntax_err-some _ _ c h
  parse_plain-TakesTwo i c list h = or_syntax_err-some _ _ c h

  -- The name has no blank and no text goes on from it as UID does.
  pub record IsName (name : Bytes) : Type 0 where
    pub no_blank : split_once b' ' name ≡ none
    pub not_uid : (i : Bytes) → same (take 4 (name ++ i)) (codes "UID ") ≡ false

  pub Bare-IsName : {c : C} {name : Bytes} → Bare c name → IsName name
  unfolding split_once same
  Bare-IsName capability = record { no_blank = refl; not_uid = λ i. refl }
  Bare-IsName noop = record { no_blank = refl; not_uid = λ i. refl }
  Bare-IsName logout = record { no_blank = refl; not_uid = λ i. refl }
  Bare-IsName starttls = record { no_blank = refl; not_uid = λ i. refl }
  Bare-IsName namespace = record { no_blank = refl; not_uid = λ i. refl }
  Bare-IsName append = record { no_blank = refl; not_uid = λ i. refl }
  Bare-IsName idle = record { no_blank = refl; not_uid = λ i. refl }
  Bare-IsName close = record { no_blank = refl; not_uid = λ i. refl }
  Bare-IsName unselect = record { no_blank = refl; not_uid = λ i. refl }

  pub TakesOne-IsName : {make : Bytes → C} {name : Bytes} → TakesOne make name → IsName name
  unfolding split_once same
  TakesOne-IsName select = record { no_blank = refl; not_uid = λ i. refl }
  TakesOne-IsName examine = record { no_blank = refl; not_uid = λ i. refl }
  TakesOne-IsName create = record { no_blank = refl; not_uid = λ i. refl }
  TakesOne-IsName delete = record { no_blank = refl; not_uid = λ i. refl }
  TakesOne-IsName subscribe = record { no_blank = refl; not_uid = λ i. refl }
  TakesOne-IsName unsubscribe = record { no_blank = refl; not_uid = λ i. refl }

  pub TakesTwo-IsName : {make : Bytes → Bytes → C} {name : Bytes} → TakesTwo make name → IsName name
  unfolding split_once same
  TakesTwo-IsName login = record { no_blank = refl; not_uid = λ i. refl }
  TakesTwo-IsName rename = record { no_blank = refl; not_uid = λ i. refl }
  TakesTwo-IsName list = record { no_blank = refl; not_uid = λ i. refl }

  pub parse_plain-TakesUid :
      {make : Bool → C} {name : Bytes} (i : Bytes)
      → TakesUid make name
      → parse_plain caps items nom name i ≡ ok (make false)
  unfolding parse_plain parse_either same
  parse_plain-TakesUid i expunge = refl
  parse_plain-TakesUid i search = refl
  parse_plain-TakesUid i store = refl
  parse_plain-TakesUid i copy = refl
  parse_plain-TakesUid i move = refl

  pub parse_either-TakesUid :
      {make : Bool → C} {name : Bytes} (i : Bytes) (is_uid : Bool)
      → TakesUid make name
      → parse_either caps items nom name is_uid i ≡ ok (make is_uid)
  unfolding parse_either same
  parse_either-TakesUid i is_uid expunge = refl
  parse_either-TakesUid i is_uid search = refl
  parse_either-TakesUid i is_uid store = refl
  parse_either-TakesUid i is_uid copy = refl
  parse_either-TakesUid i is_uid move = refl

  pub TakesUid-IsName : {make : Bool → C} {name : Bytes} → TakesUid make name → IsName name
  unfolding split_once same
  TakesUid-IsName expunge = record { no_blank = refl; not_uid = λ i. refl }
  TakesUid-IsName search = record { no_blank = refl; not_uid = λ i. refl }
  TakesUid-IsName store = record { no_blank = refl; not_uid = λ i. refl }
  TakesUid-IsName copy = record { no_blank = refl; not_uid = λ i. refl }
  TakesUid-IsName move = record { no_blank = refl; not_uid = λ i. refl }

  pub parse_either-fetch :
      (i : Bytes) (c : C) (is_uid : Bool)
      → fetch_args caps items nom is_uid i ≡ some ([], c)
      → parse_either caps items nom (codes "FETCH") is_uid i ≡ ok c
  unfolding parse_either same
  parse_either-fetch i c is_uid h = or_syntax_err-some _ _ c h

  pub parse_plain-fetch :
      (i : Bytes) (c : C)
      → fetch_args caps items nom false i ≡ some ([], c)
      → parse_plain caps items nom (codes "FETCH") i ≡ ok c
  unfolding parse_plain parse_either same
  parse_plain-fetch i c h = or_syntax_err-some _ _ c h

  pub fetch-IsName : IsName (codes "FETCH")
  unfolding split_once same
  fetch-IsName = record { no_blank = refl; not_uid = λ i. refl }

  pub parse_plain-authenticate :
      (i : Bytes) (c : C)
      → authenticate_args caps items nom i ≡ some ([], c)
      → parse_plain caps items nom (codes "AUTHENTICATE") i ≡ ok c
  unfolding parse_plain same
  parse_plain-authenticate i c h = or_syntax_err-some _ _ c h

  pub authenticate-IsName : IsName (codes "AUTHENTICATE")
  unfolding split_once same
  authenticate-IsName = record { no_blank = refl; not_uid = λ i. refl }

  pub parse_plain-enable :
      (i : Bytes) (c : C)
      → enable_args caps items nom i ≡ some ([], c)
      → parse_plain caps items nom (codes "ENABLE") i ≡ ok c
  unfolding parse_plain same
  parse_plain-enable i c h = or_syntax_err-some _ _ c h

  pub enable-IsName : IsName (codes "ENABLE")
  unfolding split_once same
  enable-IsName = record { no_blank = refl; not_uid = λ i. refl }

  pub parse_plain-status :
      (i : Bytes) (c : C)
      → status_args caps items nom i ≡ some ([], c)
      → parse_plain caps items nom (codes "STATUS") i ≡ ok c
  unfolding parse_plain same
  parse_plain-status i c h = or_syntax_err-some _ _ c h

  pub status-IsName : IsName (codes "STATUS")
  unfolding split_once same
  status-IsName = record { no_blank = refl; not_uid = λ i. refl }
