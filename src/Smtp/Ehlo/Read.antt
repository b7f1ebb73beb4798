-- ===== src/Smtp/Ehlo/Read.antt =====
-- crates/smtp/src/ehlo.rs, `Response::read`: a client's parser of the answer to EHLO.
use brev.Base.{
  ℕ, zero, suc, Bool, true, false, Option, none, some, [], ◌∷◌, Bytes, codes, length, take, drop,
  leb, List, ◌+◌, ltb, ◌==◌, same, split, split_or, if◌then◌else◌, ◌>>=◌,
}
use brev.Base.Decimal.{parse_uint}
use brev.Base.Trim.{trim_end}
use brev.Base.Utf8.{is_utf8}
use brev.Flags.{Bitflags, from_iter}
use brev.Io
use brev.Io.{Io, Incoming, chunk, returned, pure, stall, receive_from}
use brev.Smtp.Command.{u64_limit}
use brev.Smtp.Ehlo.{
  Extension, eightbitmime, smtputf8, chunking, starttls, enhancedstatuscodes, extensions, auths,
  Response,
}

-- `LINE_LIMIT`.
abbrev pub line_limit : ℕ
line_limit = 1000

-- `take(limit).read_until`: of a line that is longer than the limit the rest stays unread.
unfoldable pub receive_up_to : ℕ → List Incoming → Io Bytes
unfolding receive_from
receive_up_to limit (chunk bs more ∷ rest) w =
    if leb (length bs) limit then receive_from (chunk bs more ∷ rest) w else (
      returned (take limit bs),
      record w { incoming = chunk (drop limit bs) more ∷ rest; buffered = true },
    )
receive_up_to limit rest w = receive_from rest w

unfoldable pub read_up_to : ℕ → Io Bytes
unfolding receive_up_to
read_up_to limit w = receive_up_to limit w.incoming w

-- No more reads than bytes and answers are left.
abbrev pub reads_left : List Incoming → ℕ
reads_left [] = 0
reads_left (chunk bs more ∷ rest) = suc (length bs + reads_left rest)
reads_left (a ∷ rest) = suc (reads_left rest)

-- `line.get(3)`: whether the line is the last.
unfoldable pub is_last_line : Bytes → Option Bool
is_last_line [] = none
is_last_line (c ∷ cs) = if c == b'-' then some false else if c == b' ' then some true else none

-- The arms of the match on the keyword that add an extension.
unfoldable pub extension_of : Bytes → Option Extension
unfolding same
extension_of keyword =
    if same keyword (codes "8BITMIME")
    then some eightbitmime
    else if same keyword (codes "SMTPUTF8")
    then some smtputf8
    else if same keyword (codes "CHUNKING")
    then some chunking
    else if same keyword (codes "STARTTLS")
    then some starttls
    else if same keyword (codes "ENHANCEDSTATUSCODES")
    then some enhancedstatuscodes
    else none

module _ (ext : Bitflags extensions) (auth : Bitflags auths) where
  -- The local variables of the loop.
  pub record Reading : Type 0 where
    pub domain : Option Bytes
    pub offered : ext.Set
    pub size : Option ℕ
    pub mechanisms : auth.Set

  -- `Result<Response, ParseError>`, whose I/O errors are the action's failures.
  pub data ReadResponse : Type 0 where
    response : Response ext auth → ReadResponse
    syntax_error : ReadResponse

  -- SIZE, on what its argument is parsed to.
  unfoldable pub on_size : Reading → Option ℕ → Option Reading
  on_size r none = none
  on_size r (some n) = some (record r { size = some n })

  -- The match on the keyword.
  unfoldable pub on_keyword : Reading → Option Extension → Bytes → Bytes → Option Reading
  unfolding same on_size split from_iter
  on_keyword r (some f) keyword args =
      some (record r { offered = ext.union r.offered (ext.flag f) })
  on_keyword r none keyword args =
      if same keyword (codes "SIZE")
      then on_size r (parse_uint u64_limit args)
      else if same keyword (codes "AUTH")
      then some (record r { mechanisms = from_iter auths auth (split b' ' args) })
      else some r

  -- The first line is the domain.
  unfoldable pub on_text : Option Bytes → Reading → Bytes → Option Reading
  unfolding split_or extension_of on_keyword
  on_text none r text = some (record r { domain = some text })
  on_text (some d) r text =
      on_keyword r (extension_of (split_or b' ' text).0) (split_or b' ' text).0
        (split_or b' ' text).1

  -- A line, with its end.
  unfoldable pub on_response_line : Reading → Bytes → Option (Bool × Reading)
  unfolding is_last_line is_utf8 trim_end on_text
  on_response_line r line = if ltb (length line) 5 then none else do
    eol ← is_last_line (drop 3 line)
    next ← if is_utf8 (drop 4 line) then on_text r.domain r (trim_end (drop 4 line)) else none
    some (eol, next)

  unfoldable pub finished : Reading → Option Bytes → ReadResponse
  finished r none = syntax_error
  finished r (some domain) =
      response
        (record { domain = domain; offered = r.offered; size = r.size; mechanisms = r.mechanisms })

  unfoldable pub on_response :
      (Bool → Reading → Io ReadResponse) → Option (Bool × Reading) → Io ReadResponse
  on_response again none = pure syntax_error
  on_response again (some (eol, r)) = again eol r

  -- Each turn but the last takes an answer of the environment, or a thousand bytes of one, so the fuel
  -- is one more than the answers and their bytes.
  unfoldable pub read_response_within : ℕ → Bool → Reading → Io ReadResponse
  unfolding finished on_response on_response_line read_up_to
  read_response_within zero eol r = if eol then pure (finished r r.domain) else stall
  read_response_within (suc n) eol r =
      let again = read_response_within n in
      if eol then pure (finished r r.domain) else (λ w.
        (Io.◌>>=◌ (read_up_to line_limit) (λ line. on_response again (on_response_line r line))) w)

  abbrev pub nothing_read : Reading
  nothing_read = record { domain = none; offered = ext.empty; size = none; mechanisms = auth.empty }

  -- `Response::read`.
  unfoldable pub read_response : Io ReadResponse
  unfolding read_response_within
  read_response w = read_response_within (suc (reads_left w.incoming)) false nothing_read w
