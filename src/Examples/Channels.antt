-- ===== src/Examples/Channels.antt =====
-- Messages, lines and channels of irc/irc_server.cpp and irc/irc_client.cpp at concrete inputs.
use ida_swarm.Base.{
  ◌≡◌, refl, List, [], ◌∷◌, ◌++◌, map, some, true, Text, codes, arith, text_eq, lookup,
}
use ida_swarm.Irc.{Message, crlf, body, parse}
use ida_swarm.Irc.Wire.{IsWire, parse-body}
use ida_swarm.Irc.Lines.{receive_all, lines_of, join, receive_all_lem}
use ida_swarm.Irc.Escape.{escape, escape_byte}
use ida_swarm.Irc.Server.{Channel, Server, find_nick, handle_client}
use ida_swarm.Irc.Client.{send_message, receive_loop}
use ida_swarm.Irc.Informed.{Event, line_from, gone, run, fresh, run-IsInformed}
use ida_swarm.Irc.Informed.Channels.{IsInformed}
use ida_swarm.Irc.Delivery.{message_delivered, message_logged}

abbrev hello : Message
hello = record {
  prefix = codes "agent_1";
  command = codes "PRIVMSG";
  params = codes "#conflict" ∷ codes "I see: a struct" ∷ [];
}

hello-IsWire : IsWire hello
hello-IsWire = record {
  prefix_word = ground arith;
  command_token = ground arith;
  are_params = ground arith;
}

parse-body_example : parse (body hello) ≡ hello
parse-body_example = parse-body hello hello-IsWire

abbrev parts : List Text
parts = (codes "NICK a" ++ 13 ∷ []) ∷ (10 ∷ codes "JOIN #c") ∷ (13 ∷ 10 ∷ codes "PA") ∷ []

receive_all_lem_example : receive_all [] parts ≡ lines_of (join parts)
receive_all_lem_example = receive_all_lem parts (ground arith)

abbrev events : List Event
events =
    line_from true 5 (codes "NICK agent_1")
    ∷ line_from true 5 (codes "JOIN #conflict")
    ∷ line_from true 5 (codes "PRIVMSG #conflict :first")
    ∷ line_from true 6 (codes "NICK agent_2")
    ∷ line_from true 6 (codes "JOIN #conflict")
    ∷ line_from true 6 (codes "PRIVMSG #conflict :second")
    ∷ gone 5
    ∷ []

run-IsInformed_example :
    IsInformed (run events (fresh true, [])).0.channels (run events (fresh true, [])).1
run-IsInformed_example = run-IsInformed true events

abbrev conflict : Channel
conflict = record { clients = 5 ∷ 6 ∷ []; history = [] }

abbrev server : Server
server = record {
  client_nicks = (5, codes "agent_1") ∷ (6, codes "agent_2") ∷ [];
  channels = (codes "#conflict", conflict) ∷ [];
  db_open = true;
  log = [];
}

abbrev two_lines : Text
two_lines = codes "first" ++ 10 ∷ codes "second"

abbrev sent_bytes : Text
sent_bytes = codes "PRIVMSG #conflict :first\\nsecond" ++ crlf

sent : send_message true (codes "#conflict") two_lines ≡ some sent_bytes
unfolding send_message escape escape_byte
sent = refl

known : find_nick 5 server.client_nicks ≡ some (codes "agent_1")
unfolding find_nick
known = refl

found : lookup (codes "#conflict") server.channels ≡ some conflict
unfolding lookup text_eq
found = refl

message_delivered_example :
    (packet : Text) × ((handle_client true 5 [] sent_bytes server).1.1
      ≡ map (λ g. (g, packet)) (5 ∷ 6 ∷ []))
    × (receive_loop [] packet ≡ (
      [],
      (
        [],
        record { channel = codes "#conflict"; sender = codes "agent_1"; message = escape two_lines }
            ∷ [],
      ),
    ))
message_delivered_example =
    message_delivered true 5 (codes "agent_1") (codes "#conflict") two_lines sent_bytes server
      conflict (ground arith) (ground arith) known found sent (ground arith)

message_logged_example :
    (handle_client true 5 [] sent_bytes server).1.0.log
    ≡ record { channel = codes "#conflict"; nick = codes "agent_1"; message = two_lines } ∷ []
message_logged_example =
    message_logged true 5 (codes "agent_1") (codes "#conflict") two_lines sent_bytes server conflict
      (ground arith) (ground arith) known found sent refl refl (ground arith)
