-- ===== src/Irc.antt =====
-- irc/irc_server.h and .cpp, irc/irc_client.h and .cpp: the channels over which agents and orchestrator
-- talk. Here: messages and their wire form.
pub mod Wire
pub mod Lines
pub mod Escape
pub mod Server
pub mod Client
pub mod Delivery
pub mod Informed
use ida_swarm.Base.{
  ℕ, zero, suc, List, [], ◌∷◌, ◌++◌, Option, none, some, Bool, true, false, ◌&&◌, ◌||◌, Text, codes,
  drop, length, leb, ◌==◌, if◌then◌else◌,
}

pub record Message : Type 0 where
  pub prefix : Text
  pub command : Text
  pub params : List Text

-- " " before each parameter, and ":" before the last one
unfoldable pub serialize_params : List Text → Text
serialize_params [] = []
serialize_params (p ∷ []) = b' ' ∷ b':' ∷ p
serialize_params (p ∷ q ∷ ps) = b' ' ∷ (p ++ serialize_params (q ∷ ps))

unfoldable pub serialize_prefix : Text → Text
serialize_prefix [] = []
serialize_prefix (c ∷ s) = b':' ∷ c ∷ (s ++ b' ' ∷ [])

-- The text of a message before the end of its line.
unfoldable pub body : Message → Text
body m = serialize_prefix m.prefix ++ (m.command ++ serialize_params m.params)

abbrev pub crlf : Text
crlf = 13 ∷ 10 ∷ []

unfoldable pub serialize : Message → Text
serialize m = body m ++ crlf

-- std::isspace in the C locale
abbrev pub is_space : ℕ → Bool
is_space c = c == b' ' || leb 9 c && leb c 13

unfoldable pub skip_spaces : Text → Text
skip_spaces [] = []
skip_spaces (c ∷ s) = if is_space c then skip_spaces s else c ∷ s

-- The bytes before the first blank, and the rest from there.
unfoldable pub word_of : Text → Text × Text
word_of [] = ([], [])
word_of (c ∷ s) = let (w, rest) = word_of s in if is_space c then ([], c ∷ s) else (c ∷ w, rest)

-- iss >> token; an empty token means that there was none.
unfoldable pub next_token : Text → Text × Text
next_token s = word_of (skip_spaces s)

-- std::getline
unfoldable pub until_newline : Text → Text
until_newline [] = []
until_newline (c ∷ s) = if c == 10 then [] else c ∷ until_newline s

-- The loop over the parameters; a token has a byte or more, so a round for each byte is enough.
unfoldable pub parse_params : ℕ → Text → List Text
parse_params zero s = []
parse_params (suc n) s =
    let (w, rest) = next_token s in
    elim w [
      | [] ↦ []
      | c ∷ t ↦ elim (c == b':') [
        | true ↦ (t ++ until_newline rest) ∷ []
        | false ↦ (c ∷ t) ∷ parse_params n rest
      ]
    ]

unfoldable pub parse_command : Text → Text → Message
parse_command prefix s =
    let (command, rest) = next_token s in
    record { prefix = prefix; command = command; params = parse_params (length rest) rest }

unfoldable pub parse : Text → Message
parse [] = parse_command [] []
parse (c ∷ s) =
    if c == b':'
    then (let (w, rest) = next_token (c ∷ s) in parse_command (drop 1 w) rest)
    else parse_command [] (c ∷ s)
