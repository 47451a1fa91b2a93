-- ===== src/Orchestrator/Debugger.antt =====
-- Orchestrator::handle_lldb_message of orchestrator/orchestrator.cpp: the requests to the debugger, which
-- agents send on #lldb_control. A number that cannot be read throws, and nothing catches that.
use ida_swarm.Base.{
  not, ◌≡◌, ◌≢◌, ℕ, ◌-◌, ◌%◌, ◌^◌, [], ◌∷◌, ◌++◌, Option, none, some, Bool, true, ◌&&◌, ◌||◌, Text,
  codes, text_eq, leb, ltb, word, length, ◌==◌, if◌then◌else◌,
}
use ida_swarm.Base.Numbers.{scan_first, skip_spaces}
use ida_swarm.Irc.Server.{starts_with}
use ida_swarm.Irc.Client.{split_at}
use ida_swarm.Orchestrator.{
  Machine, Orchestrator, LldbRequest, start_session, send_command, convert_address, stop_session,
}
use ida_swarm.Orchestrator.Messages.{split_pipe, send_message}

-- The sign and the digits of a decimal number after blanks; `none` where there is no digit.
unfoldable pub decimal : Text → Option (Bool × ℕ)
unfolding scan_first
decimal [] = none
decimal (c ∷ s) =
    let size = scan_first 10 (if c == b'-' || c == b'+' then s else c ∷ s) in
    elim size [ none ↦ none | some n ↦ some (c == b'-' && not (n == 0), n) ]

-- std::stoi; `none` where it throws.
unfoldable pub fits_int : Bool × ℕ → Bool
fits_int (negative, n) = if negative then leb n (2 ^ 31) else ltb n (2 ^ 31)

unfoldable pub stoi : Text → Option (Bool × ℕ)
unfolding decimal skip_spaces fits_int
stoi t = elim (decimal (skip_spaces t)) [
  | none ↦ none
  | some n ↦ if fits_int n then some n else none
]

-- std::stoull; a minus sign negates modulo 2^64. `none` where it throws.
unfoldable pub stoull : Text → Option ℕ
unfolding decimal skip_spaces
stoull t = elim (decimal (skip_spaces t)) [
  | none ↦ none
  | some (negative, n) ↦
      if ltb n word then some (if negative then (word - n) % word else n) else none
]

-- What a message asks for: nothing, a number that cannot be read, or a request; for an answer, the type
-- of the message, the request and the agent.
pub data Route : Type 0 where
  no_route : Route
  bad_number : Route
  routed : (type request agent : Text) → LldbRequest → Route

unfoldable pub timed : Text → Text → Option (Bool × ℕ) → Route
timed request agent none = bad_number
timed request agent (some n) =
    routed (codes "LLDB_START_SESSION") request agent (start_session agent request n)

unfoldable pub addressed : Text → Text → Text → Option ℕ → Route
addressed request session agent none = bad_number
addressed request session agent (some n) =
    routed (codes "LLDB_CONVERT_ADDRESS") request agent (convert_address session agent n request)

unfoldable pub route_start : Text → Option (Text × Text) → Route
unfolding timed stoi
route_start request none = no_route
route_start request (some (agent, timeout)) = timed request agent (stoi timeout)

-- With the request and the session at hand: agent|rest for two types, and the agent for the third.
unfoldable pub route_command : Text → Text → Option (Text × Text) → Route
route_command request session none = no_route
route_command request session (some (agent, command)) =
    routed (codes "LLDB_SEND_COMMAND") request agent (send_command session agent command request)

unfoldable pub route_convert : Text → Text → Option (Text × Text) → Route
unfolding addressed stoull
route_convert request session none = no_route
route_convert request session (some (agent, address)) =
    addressed request session agent (stoull address)

unfoldable pub route_session : Text → Text → Option (Text × Text) → Route
unfolding route_command route_convert split_at
route_session type request none = no_route
route_session type request (some (session, rest)) =
    if text_eq type (codes "LLDB_SEND_COMMAND")
    then route_command request session (split_pipe rest)
    else if text_eq type (codes "LLDB_CONVERT_ADDRESS")
    then route_convert request session (split_pipe rest)
    else if text_eq type (codes "LLDB_STOP_SESSION")
    then routed type request rest (stop_session session rest request)
    else no_route

unfoldable pub route_request : Text → Option (Text × Text) → Route
unfolding route_start route_session split_at
route_request type none = no_route
route_request type (some (request, rest)) =
    if text_eq type (codes "LLDB_START_SESSION")
    then route_start request (split_pipe rest)
    else route_session type request (split_pipe rest)

unfoldable pub route_type : Option (Text × Text) → Route
unfolding route_request split_at
route_type none = no_route
route_type (some (type, rest)) = route_request type (split_pipe rest)

unfoldable pub route : Text → Route
unfolding route_type split_at
route text = route_type (split_pipe text)

-- The branch of handle_irc_message for the debugger.
unfoldable pub is_debug : Text → Text → Bool
unfolding starts_with text_eq
is_debug channel text = text_eq channel (codes "#lldb_control") && starts_with (codes "LLDB_") text

module _ (M : Machine) where
  -- The answer to an agent; `none` where dumping it throws.
  unfoldable pub respond :
      Text → Text → Text → Option Text → Orchestrator M → Option (Orchestrator M)
  respond type request agent answer o =
      if length request == 0 || length agent == 0 then some o else elim answer [
        | none ↦ none
        | some json ↦ some (
            send_message M (b'#' ∷ agent) (type ++ (codes "_RESPONSE|" ++ (request ++ b'|' ∷ json)))
              o)
      ]

  unfoldable pub handle_route : Route → Orchestrator M → Option (Orchestrator M)
  unfolding respond
  handle_route no_route o = some o
  handle_route bad_number o = none
  handle_route (routed type request agent r) o =
      let (outside, answer) = M.handle_lldb r o.outside in
      respond type request agent answer (record o { outside = outside })

  -- `none` where an exception leaves it, which ends the process.
  unfoldable pub handle_lldb_message : Text → Orchestrator M → Option (Orchestrator M)
  unfolding handle_route route
  handle_lldb_message text o = if M.has_lldb then handle_route (route text) o else some o

  -- Where there is a debugger, each number of a request to it can be read, and its answers are dumped.
  abbrev pub IsReadable : Text → Text → Type 0
  IsReadable channel text =
      is_debug channel text ≡ true → M.has_lldb ≡ true → route text ≢ bad_number

  abbrev pub AlwaysAnswers : Type 0
  AlwaysAnswers = (r : LldbRequest) (outside : M.Outside) → (M.handle_lldb r outside).1 ≢ none
