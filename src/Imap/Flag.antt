-- ===== src/Imap/Flag.antt =====
-- crates/imap-proto/src/flags.rs: the flags of a message, their text and its parser, and from
-- crates/imap-proto/src/lib.rs the list in parentheses.
pub mod RoundTrip
use brev.Base.{Bool, true, false, List, [], ◌∷◌, ◌++◌, map, Bytes, codes, same, if◌then◌else◌}

pub data Flag : Type 0 where
  seen answered flagged deleted draft recent forwarded mdn_sent junk not_junk phishing : Flag
  keyword : Bytes → Flag

-- `Display` of `Flag`.
unfoldable pub flag_to_string : Flag → Bytes
flag_to_string seen = codes "\\Seen"
flag_to_string answered = codes "\\Answered"
flag_to_string flagged = codes "\\Flagged"
flag_to_string deleted = codes "\\Deleted"
flag_to_string draft = codes "\\Draft"
flag_to_string recent = codes "\\Recent"
flag_to_string forwarded = codes "$Forwarded"
flag_to_string mdn_sent = codes "$MDNSent"
flag_to_string junk = codes "$Junk"
flag_to_string not_junk = codes "$NotJunk"
flag_to_string phishing = codes "$Phishing"
flag_to_string (keyword k) = k

-- `Flag::from_str`.
unfoldable pub flag_from_str : Bytes → Flag
unfolding same
flag_from_str s =
    if same s (codes "\\Seen")
    then seen
    else if same s (codes "\\Answered")
    then answered
    else if same s (codes "\\Flagged")
    then flagged
    else if same s (codes "\\Deleted")
    then deleted
    else if same s (codes "\\Draft")
    then draft
    else if same s (codes "\\Recent")
    then recent
    else if same s (codes "$Forwarded")
    then forwarded
    else if same s (codes "$MDNSent")
    then mdn_sent
    else if same s (codes "$Junk")
    then junk
    else if same s (codes "$NotJunk")
    then not_junk
    else if same s (codes "$Phishing")
    then phishing
    else keyword s

-- The items with a blank between.
unfoldable pub join_blank : List Bytes → Bytes
join_blank [] = []
join_blank (s ∷ []) = s
join_blank (s ∷ t ∷ rest) = s ++ b' ' ∷ join_blank (t ∷ rest)

-- `fmt_paren_list`, on the text of its items.
unfoldable pub fmt_paren_list : List Bytes → Bytes
unfolding join_blank
fmt_paren_list items = b'(' ∷ (join_blank items ++ b')' ∷ [])

-- `Display` of `Response`.
unfoldable pub flags_response : List Flag → Bytes
unfolding flag_to_string fmt_paren_list
flags_response flags = codes "FLAGS " ++ fmt_paren_list (map flag_to_string flags)
