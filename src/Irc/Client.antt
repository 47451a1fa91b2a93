-- ===== src/Irc/Client.antt =====
-- The client of irc/irc_client.cpp: what it sends, and what it makes of the lines that arrive.
use ida_swarm.Base.{
  ℕ, List, [], ◌∷◌, ◌++◌, Option, none, some, Bool, Text, codes, text_eq, take, drop, ◌==◌,
  if◌then◌else◌,
}
use ida_swarm.Irc.{crlf}
use ida_swarm.Irc.Escape.{escape}
use ida_swarm.Irc.Lines.{receive}

-- A message as the callback has it.
pub record Incoming : Type 0 where
  pub channel : Text
  pub sender : Text
  pub message : Text

-- What connect() sends first; the server knows no USER command.
unfoldable pub greeting : Text → List Text
greeting nick =
    (codes "NICK " ++ (nick ++ crlf))
    ∷ (codes "USER " ++ (nick ++ (codes " 0 * :Agent " ++ (nick ++ crlf))))
    ∷ []

-- The operations give `none` where they send nothing, without a connection.
unfoldable pub join_channel : Bool → Text → Option Text
join_channel connected channel =
    if connected then some (codes "JOIN " ++ (channel ++ crlf)) else none

unfoldable pub leave_channel : Bool → Text → Option Text
leave_channel connected channel =
    if connected then some (codes "PART " ++ (channel ++ crlf)) else none

unfoldable pub send_message : Bool → Text → Text → Option Text
send_message connected channel message =
    if connected
    then some (codes "PRIVMSG " ++ (channel ++ (codes " :" ++ (escape message ++ crlf))))
    else none

-- find(byte): what is before and after the first of them.
unfoldable pub split_at : ℕ → Text → Option (Text × Text)
split_at byte [] = none
split_at byte (c ∷ s) =
    let rest = split_at byte s in
    if c == byte then some ([], s) else elim rest [ none ↦ none | some p ↦ some (c ∷ p.0, p.1) ]

-- The nickname in a prefix: after ':' and up to '!', where there is one.
unfoldable pub sender_of : Text → Text
sender_of [] = []
sender_of (c ∷ s) = if c == b':' then elim (split_at b'!' s) [ none ↦ s | some p ↦ p.0 ] else []

-- The text of a message, after the first ':' where there is one.
unfoldable pub text_of : Text → Text
text_of s = elim (split_at b':' s) [ none ↦ s | some p ↦ p.1 ]

unfoldable pub privmsg_of : Text → Text → Text → Option Incoming
privmsg_of prefix cmd rest =
    if text_eq cmd (codes "PRIVMSG")
    then elim (split_at b' ' rest) [
      | none ↦ none
      | some p ↦ some (record { channel = p.0; sender = sender_of prefix; message = text_of p.1 })
    ]
    else none

-- A line that is no PING: a message for the callback, or nothing.
unfoldable pub incoming_of : Text → Option Incoming
incoming_of line = elim (split_at b' ' line) [
  | none ↦ none
  | some p ↦ elim (split_at b' ' p.1) [ none ↦ none | some q ↦ privmsg_of p.0 q.0 q.1 ]
]

-- The body of the loop over complete lines: what is sent back, and what the callback gets.
unfoldable pub hear_line : Text → List Text × List Incoming
hear_line [] = ([], [])
hear_line (c ∷ line) =
    if text_eq (take 4 (c ∷ line)) (codes "PING")
    then ((codes "PONG" ++ (drop 4 (c ∷ line) ++ crlf)) ∷ [], [])
    else elim (incoming_of (c ∷ line)) [ none ↦ ([], []) | some m ↦ ([], m ∷ []) ]

unfoldable pub hear_lines : List Text → List Text × List Incoming
hear_lines [] = ([], [])
hear_lines (line ∷ lines) =
    let (sent, heard) = hear_line line in
    let (more_sent, more_heard) = hear_lines lines in (sent ++ more_sent, heard ++ more_heard)

-- One round of receive_loop: the buffer that is left, what is sent back, what the callback gets.
unfoldable pub receive_loop : Text → Text → Text × (List Text × List Incoming)
receive_loop buffer bytes = let (lines, rest) = receive buffer bytes in (rest, hear_lines lines)

-- What is put into the queue for a message.
unfoldable pub queued : Incoming → Text
queued m = m.channel ++ (b'|' ∷ (m.sender ++ (b'|' ∷ m.message)))

-- What is taken from the queue, or an empty text where none came in time.
unfoldable pub get_next_message : List Text → Text × List Text
get_next_message [] = ([], [])
get_next_message (m ∷ queue) = (m, queue)
