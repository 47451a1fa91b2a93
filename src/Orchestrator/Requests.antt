-- ===== src/Orchestrator/Requests.antt =====
-- The requests that the tools of agent/agent_lldb_tools.h send to the debugger, and what
-- Orchestrator::handle_lldb_message of orchestrator/orchestrator.cpp reads out of them.
use ida_swarm.Base.{
  ℕ, ◌<◌, ◌≡◌, ◌≢◌, ◌∷◌, ◌++◌, Bool, true, false, ◌&&◌, All, Text, codes, word, ◌==◌, if◌then◌else◌,
}
use ida_swarm.Base.Numbers.{print_number}
use ida_swarm.Orchestrator.{LldbRequest, start_session, send_command, convert_address, stop_session}
use ida_swarm.Orchestrator.Debugger.{fits_int}

unfoldable pub print_int : Bool × ℕ → Text
print_int (negative, n) = if negative then b'-' ∷ print_number 10 n else print_number 10 n

unfoldable pub message_type : LldbRequest → Text
message_type (start_session agent request timeout) = codes "LLDB_START_SESSION"
message_type (send_command session agent command request) = codes "LLDB_SEND_COMMAND"
message_type (convert_address session agent address request) = codes "LLDB_CONVERT_ADDRESS"
message_type (stop_session session agent request) = codes "LLDB_STOP_SESSION"

unfoldable pub request_id : LldbRequest → Text
request_id (start_session agent request timeout) = request
request_id (send_command session agent command request) = request
request_id (convert_address session agent address request) = request
request_id (stop_session session agent request) = request

unfoldable pub asking_agent : LldbRequest → Text
asking_agent (start_session agent request timeout) = agent
asking_agent (send_command session agent command request) = agent
asking_agent (convert_address session agent address request) = agent
asking_agent (stop_session session agent request) = agent

abbrev barred : Text → Text → Text
barred t rest = t ++ b'|' ∷ rest

-- What a message has after its type and the request.
unfoldable pub fields_of : LldbRequest → Text
unfolding print_int
fields_of (start_session agent request timeout) = barred agent (print_int timeout)
fields_of (send_command session agent command request) = barred session (barred agent command)
fields_of (convert_address session agent address request) =
    barred session (barred agent (print_number 10 address))
fields_of (stop_session session agent request) = barred session agent

unfoldable pub request_text : LldbRequest → Text
unfolding message_type request_id fields_of
request_text r = barred (message_type r) (barred (request_id r) (fields_of r))

-- The text has no bar.
abbrev pub NoBar : Text → Type 0
NoBar t = All (λ c. c ≢ b'|') t

-- An int; there is no minus zero.
abbrev pub IsInt : Bool × ℕ → Type 0
IsInt (negative, n) = (fits_int (negative, n) ≡ true) × ((negative && n == 0) ≡ false)

-- The names have no bar, and the numbers are an int and a word; a command is any text.
abbrev pub IsSendable : LldbRequest → Type 0
IsSendable (start_session agent request timeout) = NoBar request × NoBar agent × IsInt timeout
IsSendable (send_command session agent command request) =
    NoBar request × NoBar session × NoBar agent
IsSendable (convert_address session agent address request) =
    NoBar request × NoBar session × NoBar agent × (address < word)
IsSendable (stop_session session agent request) = NoBar request × NoBar session
