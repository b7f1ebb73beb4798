-- ===== src/Line.antt =====
-- crates/line/src: lines read from and written to a connection, and its upgrade to TLS.
pub mod Finishes
pub mod Encryption
use brev.Base.{if◌then◌else◌, Bool, true, false, [], ◌∷◌, Bytes, trim_line}
use brev.Io.{
  World, Io, returned, panicked, Stream, plain, tls, wrote, flushed, closed, secured, pure, panic,
  perform, read_until, ◌>>=◌, ◌>>◌,
}

-- `write`, `write_flush`; also the methods of `Connection`, which call them.
unfoldable pub write : Bytes → Io (Unit {0})
unfolding perform
write src = perform (wrote src)

unfoldable pub flush : Io (Unit {0})
unfolding perform
flush = perform flushed

unfoldable pub write_flush : Bytes → Io (Unit {0})
unfolding write flush
write_flush src = do write src; flush

unfoldable pub shutdown : Io (Unit {0})
unfolding perform
shutdown = perform closed

-- `Result<(), ReadLineError>` with the buffer: the error `Io` is the action's failure.
pub data ReadLine : Type 0 where
  line : Bytes → ReadLine
  eof : ReadLine

unfoldable pub line_of : Bytes → ReadLine
unfolding trim_line
line_of [] = eof
line_of (c ∷ cs) = line (trim_line (c ∷ cs))

-- `read_line`, with what the caller's buffer holds; it asserts that this is nothing.
unfoldable pub read_line : Bytes → Io ReadLine
unfolding read_until line_of
read_line [] = do bs ← read_until; pure (line_of bs)
read_line (c ∷ cs) = panic

abbrev pub is_plain : World → Bool
is_plain w = elim w.stream [ plain ↦ true | tls ↦ false ]

abbrev pub is_tls : World → Bool
is_tls w = elim w.stream [ plain ↦ false | tls ↦ true ]

-- `MaybeTls::upgrade`: a stream that is encrypted stays as it is, and a failed handshake gives the
-- plain stream back.
unfoldable pub upgrade_stream : Stream → Io (Unit {0})
unfolding perform
upgrade_stream tls w = (returned tt, w)
upgrade_stream plain w = (do perform secured; λ v. (returned tt, record v { stream = tls })) w

-- `Connection::upgrade`; it asserts that its reader has nothing buffered.
unfoldable pub upgrade : Io (Unit {0})
unfolding upgrade_stream
upgrade w = if w.buffered then (panicked, w) else upgrade_stream w.stream w
