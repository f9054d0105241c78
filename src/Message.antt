-- ===== src/Message.antt =====
-- The package `message`: the envelope, and the functions on raw messages of message/raw.go and
-- message/message.go that the server calls.
pub mod Fold
pub mod Slices
pub mod Pieces
pub mod Tidy
pub mod Cuts
use tmail.Prelude.{Option, none, some, List, [], ◌∷◌, ◌++◌, if◌then◌else◌, Bytes, codes}
use tmail.Text.{crlf, to_lower, has_prefix, split, split_at_byte, trim_space, part}
use tmail.Text.Utils.{drop_first, drop_last}

pub record Envelope : Type 0 where
  pub mail_from : Bytes
  pub rcpt_to : List Bytes

-- `RawGetHeaders`: what stands before the first empty line
unfoldable pub raw_get_headers : Bytes → Bytes
raw_get_headers raw = part 0 (split raw (crlf ++ crlf))

-- `p[1]`, trimmed of white space and of one pair of brackets; `none` is the panic on a line with
-- no colon
unfoldable pub header_value : List Bytes → Option Bytes
unfolding drop_first drop_last
header_value [] = none
header_value (p ∷ []) = none
header_value (p ∷ (v ∷ ps)) = some (drop_first b'<' (drop_last b'>' (trim_space v)))

unfoldable pub find_message_id : List Bytes → Option Bytes
unfolding header_value
find_message_id [] = some []
find_message_id (line ∷ lines) =
    let rest = find_message_id lines in
    if has_prefix (to_lower line) (codes "message-id")
    then header_value (split_at_byte 58 line)
    else rest

-- `RawGetMessageId`; `none` is a panic
unfoldable pub raw_get_message_id : Bytes → Option Bytes
unfolding find_message_id raw_get_headers
raw_get_message_id raw = find_message_id (split (raw_get_headers raw) crlf)

-- `address[strings.Index(address, "@")+1:]` of the lower-case address
unfoldable pub behind_at : List Bytes → Bytes
behind_at [] = []
behind_at (p ∷ []) = p
behind_at (p ∷ (q ∷ ps)) = q

unfoldable pub get_host_from_address : Bytes → Bytes
unfolding behind_at
get_host_from_address address = behind_at (split_at_byte 64 (to_lower address))
