-- ===== src/Irc/Server.antt =====
-- The server of irc/irc_server.cpp: channels with their history, nicknames, and what is sent to whom.
-- A handler runs under the server's mutex, so that messages are processed one after the other.
use ida_swarm.Base.{
  ℕ, List, [], ◌∷◌, ◌++◌, map, Option, none, some, Bool, true, false, not, ◌&&◌, Text, codes,
  text_eq, lookup, insert, keep, ltb, ◌==◌, if◌then◌else◌,
}
use ida_swarm.Base.External.{RowOrder}
use ida_swarm.Irc.{Message, serialize, parse}
use ida_swarm.Irc.Escape.{unescape}
use ida_swarm.Irc.Lines.{receive}

-- The clients are sockets, in ascending order.
pub record Channel : Type 0 where
  pub clients : List ℕ
  pub history : List Message

pub record LogRow : Type 0 where
  pub channel : Text
  pub nick : Text
  pub message : Text

pub record Server : Type 0 where
  pub client_nicks : List (ℕ × Text)
  pub channels : List (Text × Channel)
  pub db_open : Bool
  pub log : List LogRow

-- What is sent to which socket, in order. Nothing is done about a send() that fails.
abbrev pub Sends : Type 0
Sends = List (ℕ × Text)

abbrev pub new_channel : Channel
new_channel = record { clients = []; history = [] }

unfoldable pub client_insert : ℕ → List ℕ → List ℕ
client_insert fd [] = fd ∷ []
client_insert fd (g ∷ s) =
    let further = g ∷ client_insert fd s in
    if ltb fd g then fd ∷ g ∷ s else if fd == g then g ∷ s else further

unfoldable pub client_erase : ℕ → List ℕ → List ℕ
client_erase fd [] = []
client_erase fd (g ∷ s) = if fd == g then client_erase fd s else g ∷ client_erase fd s

unfoldable pub add_client : ℕ → Channel → Channel
add_client fd c = record c { clients = client_insert fd c.clients }

unfoldable pub remove_client : ℕ → Channel → Channel
remove_client fd c = record c { clients = client_erase fd c.clients }

unfoldable pub has_clients : Channel → Bool
has_clients c = elim c.clients [ [] ↦ false | fd ∷ s ↦ true ]

abbrev pub replicate_mark : Text
replicate_mark = codes "WRITE_REPLICATE|"

-- text.find(mark) == 0
unfoldable pub starts_with : Text → Text → Bool
starts_with mark [] = elim mark [ [] ↦ true | c ∷ m ↦ false ]
starts_with [] (d ∷ s) = true
starts_with (c ∷ m) (d ∷ s) = c == d && starts_with m s

-- Whether a broadcast goes into the history.
unfoldable pub should_store : Message → Bool
should_store m = elim m.params [
  | [] ↦ true
  | p ∷ ps ↦ elim ps [ [] ↦ true | q ∷ qs ↦ not (starts_with replicate_mark q) ]
]

-- broadcast(msg) with the default sender -1, which is no socket: every client is sent the message.
unfoldable pub broadcast : Message → Channel → Channel × Sends
broadcast m c = (
  record c { history = if should_store m then c.history ++ m ∷ [] else c.history },
  map (λ fd. (fd, serialize m)) c.clients,
)

unfoldable pub find_nick : ℕ → List (ℕ × Text) → Option Text
find_nick fd [] = none
find_nick fd ((g, n) ∷ m) = if fd == g then some n else find_nick fd m

-- client_nicks_[fd] = nick
unfoldable pub set_nick : ℕ → Text → List (ℕ × Text) → List (ℕ × Text)
set_nick fd nick [] = (fd, nick) ∷ []
set_nick fd nick ((g, n) ∷ m) = if fd == g then (fd, nick) ∷ m else (g, n) ∷ set_nick fd nick m

unfoldable pub erase_nick : ℕ → List (ℕ × Text) → List (ℕ × Text)
erase_nick fd [] = []
erase_nick fd ((g, n) ∷ m) = if fd == g then erase_nick fd m else (g, n) ∷ erase_nick fd m

-- client_nicks_[fd] where it is read: the nickname, and the map with an empty one for a new socket.
unfoldable pub nick_of : ℕ → List (ℕ × Text) → Text
nick_of fd m = elim (find_nick fd m) [ none ↦ [] | some n ↦ n ]

unfoldable pub touch : ℕ → List (ℕ × Text) → List (ℕ × Text)
touch fd m = elim (find_nick fd m) [ none ↦ set_nick fd [] m | some n ↦ m ]

-- `accepts` says whether the database takes the row.
unfoldable pub log_to_db : Bool → Text → Text → Text → Server → Server
log_to_db accepts channel nick message s =
    if s.db_open && accepts
    then record s {
      log = s.log ++ record { channel = channel; nick = nick; message = message } ∷ [];
    }
    else s

unfoldable pub on_nick : ℕ → Text → Server → Server × Sends
on_nick fd nick s = (
  record s { client_nicks = set_nick fd nick s.client_nicks },
  (
    fd,
    serialize (record {
      prefix = codes "server";
      command = codes "001";
      params = nick ∷ codes "Welcome to the deliberation server" ∷ [];
    }),
  )
      ∷ [],
)

unfoldable pub channel_of : Text → List (Text × Channel) → Channel
channel_of name cs = elim (lookup name cs) [ none ↦ new_channel | some c ↦ c ]

-- A message from the server about a client and a channel.
unfoldable pub notice : Text → Text → Text → Message
notice command nick name = record { prefix = nick; command = command; params = name ∷ [] }

unfoldable pub on_join : ℕ → Text → Server → Server × Sends
on_join fd name s =
    let nick = nick_of fd s.client_nicks in
    let joined = add_client fd (channel_of name s.channels) in
    let (channel, sends) = broadcast (notice (codes "JOIN") nick name) joined in
    (
      record s {
        client_nicks = touch fd s.client_nicks;
        channels = insert name channel s.channels;
      },
      sends ++ map (λ m. (fd, serialize m)) channel.history,
    )

unfoldable pub on_privmsg : Bool → ℕ → Text → Text → Server → Server × Sends
on_privmsg accepts fd name text s = elim (lookup name s.channels) [
  | none ↦ (s, [])
  | some found ↦
      let nick = nick_of fd s.client_nicks in
      let m : Message = record {
        prefix = nick;
        command = codes "PRIVMSG";
        params = name ∷ text ∷ [];
      } in
      let (channel, sends) = broadcast m found in
      (
        log_to_db accepts name nick (unescape text) (record s {
          client_nicks = touch fd s.client_nicks;
          channels = insert name channel s.channels;
        }),
        sends,
      )
]

unfoldable pub on_part : ℕ → Text → Server → Server × Sends
on_part fd name s = elim (lookup name s.channels) [
  | none ↦ (s, [])
  | some found ↦
      let nick = nick_of fd s.client_nicks in
      let (channel, sends) = broadcast (notice (codes "PART") nick name) (remove_client fd found) in
      (
        record s {
          client_nicks = touch fd s.client_nicks;
          channels = insert name channel s.channels;
        },
        sends,
      )
]

-- The tests of the command and of the number of parameters, in their order.
unfoldable pub process_message : Bool → ℕ → Message → Server → Server × Sends
process_message accepts fd m s = elim m.params [
  | [] ↦ (s, [])
  | p ∷ ps ↦
      if text_eq m.command (codes "NICK")
      then on_nick fd p s
      else if text_eq m.command (codes "JOIN")
      then on_join fd p s
      else if text_eq m.command (codes "PRIVMSG")
      then elim ps [ [] ↦ (s, []) | text ∷ qs ↦ on_privmsg accepts fd p text s ]
      else if text_eq m.command (codes "PART")
      then on_part fd p s
      else (s, [])
]

-- The body of the loop over complete lines in handle_client.
unfoldable pub handle_line : Bool → ℕ → Text → Server → Server × Sends
handle_line accepts fd [] s = (s, [])
handle_line accepts fd (c ∷ line) s = process_message accepts fd (parse (c ∷ line)) s

unfoldable pub handle_lines : Bool → ℕ → List Text → Server → Server × Sends
handle_lines accepts fd [] s = (s, [])
handle_lines accepts fd (line ∷ lines) s =
    let (t, sends) = handle_line accepts fd line s in
    let (u, more) = handle_lines accepts fd lines t in (u, sends ++ more)

-- One round of handle_client: the buffer that is left, the server and what it sends.
unfoldable pub handle_client : Bool → ℕ → Text → Text → Server → Text × (Server × Sends)
handle_client accepts fd buffer bytes s =
    let (lines, rest) = receive buffer bytes in (rest, handle_lines accepts fd lines s)

unfoldable pub without_client : ℕ → List (Text × Channel) → List (Text × Channel)
without_client fd [] = []
without_client fd ((name, c) ∷ cs) = (name, remove_client fd c) ∷ without_client fd cs

-- The end of handle_client.
unfoldable pub disconnected : ℕ → Server → Server
disconnected fd s = record s {
  client_nicks = erase_nick fd s.client_nicks;
  channels = without_client fd s.channels;
}

-- stop() of a server that runs, as far as its own state goes.
unfoldable pub stop : Server → Server
stop s = record s { client_nicks = []; channels = [] }

unfoldable pub row_message : LogRow → Message
row_message r = record {
  prefix = r.nick;
  command = codes "PRIVMSG";
  params = r.channel ∷ r.message ∷ [];
}

-- A channel that is not there has the history that the database holds for it.
unfoldable pub get_channel_history : RowOrder LogRow → Text → Server → List Message
get_channel_history O name s = elim (lookup name s.channels) [
  | some c ↦ c.history
  | none ↦
      if s.db_open
      then map row_message (O.ordered (keep (λ r. text_eq r.channel name) s.log))
      else []
]
