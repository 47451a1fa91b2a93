-- ===== src/Irc/Delivery.antt =====
-- A message on its way: irc/irc_client.cpp sends it, irc/irc_server.cpp passes it on and logs it, and
-- the clients of the channel receive it.
pub mod Heard
use ida_swarm.Base.{
  ℕ, zero, suc, ◌≡◌, ◌≢◌, refl, sym, ap, subst, ◌∙◌, inl, inr, List, [], ◌∷◌, ◌++◌, append-nil,
  append_assoc, map, Option, none, some, Bool, true, false, ◌&&◌, ◌||◌, Text, codes, text_eq, take,
  drop, All, All-append, lookup, ◌==◌, if◌then◌else◌, arith, Bool-cases, Option-cases,
}
use ida_swarm.Irc.{
  Message, serialize, body, crlf, parse, serialize_params, serialize_prefix, is_space,
}
use ida_swarm.Irc.Wire.{IsWord, IsToken, IsLine, AreParams, IsWire, parse-body}
use ida_swarm.Irc.Lines.{
  receive, lines_of, c_string, find_crlf, cons_line, c_string_whole, lines_step, lines_none,
}
use ida_swarm.Irc.Escape.{
  escape, escape_byte, unescape, IsOneLine, HasNoBackslash, escape-IsOneLine, unescape-escape,
}
use ida_swarm.Irc.Server.{
  Channel, Server, Sends, LogRow, broadcast, find_nick, nick_of, touch, log_to_db, on_privmsg,
  process_message, handle_line, handle_lines, handle_client,
}
use ida_swarm.Irc.Client.{
  Incoming, send_message, split_at, sender_of, text_of, privmsg_of, incoming_of, hear_line,
  hear_lines, receive_loop,
}
use ida_swarm.Irc.Delivery.Heard.{
  receive-line, escape-IsCarried, private_message, IsName-IsCarried, params-IsCarried,
  receive_loop-private, All-map, IsCarried, IsName, IsNonzero, IsNick,
}

-- What the server makes of the line of a message.
handle_line-private :
    (accepts : Bool) (fd : ℕ) (channel text : Text) (s : Server)
    → IsToken channel
    → IsLine text
    → handle_line accepts fd (body (private_message [] channel text)) s
      ≡ on_privmsg accepts fd channel text s
unfolding private_message
handle_line-private accepts fd channel text s c t =
    let m = private_message [] channel text in
    let first : handle_line accepts fd (body m) s ≡ process_message accepts fd (parse (body m)) s =
      unfold handle_line body serialize_prefix in refl in
    let wire : IsWire m = record {
      prefix_word = tt;
      command_token = ground arith;
      are_params = (c, t);
    } in
    first
    ∙ (ap (λ k. process_message accepts fd k s) (parse-body m wire)
        ∙ (unfold process_message text_eq in refl))

send_message_lem :
    (channel text : Text)
    → send_message true channel text
      ≡ some (body (private_message [] channel (escape text)) ++ crlf)
unfolding send_message body serialize_prefix serialize_params private_message
send_message_lem channel text =
    ap (λ t. some (codes "PRIVMSG " ++ t))
      (sym (append_assoc channel (b' ' ∷ b':' ∷ escape text) crlf))

on_privmsg-found :
    (accepts : Bool) (fd : ℕ) (nick channel text : Text) (s : Server) (c : Channel)
    → find_nick fd s.client_nicks ≡ some nick
    → lookup channel s.channels ≡ some c
    → ((on_privmsg accepts fd channel text s).1
        ≡ map (λ g. (g, serialize (private_message nick channel text))) c.clients)
      × ((on_privmsg accepts fd channel text s).0.log ≡ (
          if s.db_open && accepts
          then s.log ++ record { channel = channel; nick = nick; message = unescape text } ∷ []
          else s.log))
unfolding on_privmsg broadcast log_to_db private_message nick_of
on_privmsg-found accepts fd nick channel text s c n l =
    let same : nick_of fd s.client_nicks ≡ nick = ground arith in (ground arith, ground arith)

module _ (accepts : Bool) (fd : ℕ) (nick channel text bytes : Text) (s : Server) (c : Channel)
    (is_name : IsName channel) (nonzero : IsNonzero text)
    (known : find_nick fd s.client_nicks ≡ some nick) (found : lookup channel s.channels ≡ some c)
    (sent : send_message true channel text ≡ some bytes) where
  escaped-IsLine : IsLine (escape text)
  escaped-IsLine = All-map (λ d p. p.0) (escape text) (escape-IsOneLine text)

  -- The server takes the bytes for one PRIVMSG.
  handle_client-message : handle_client accepts fd [] bytes s ≡ (
    [],
    (
      (on_privmsg accepts fd channel (escape text) s).0,
      (on_privmsg accepts fd channel (escape text) s).1 ++ [],
    ),
  )
  handle_client-message =
      let line = body (private_message [] channel (escape text)) in
      let whole : line ++ crlf ≡ bytes = ground (arith, send_message_lem channel text) in
      let carried : IsCarried line =
        unfold body serialize_prefix private_message in
        params-IsCarried channel (escape text) (IsName-IsCarried channel is_name)
          (escape-IsCarried text nonzero) in
      let line_of : receive [] bytes ≡ (line ∷ [], []) =
        ap (receive []) (sym whole) ∙ receive-line line carried in
      let one = handle_line-private accepts fd channel (escape text) s is_name.0 escaped-IsLine in
      let step : handle_client accepts fd [] bytes s ≡ ([], handle_lines accepts fd (line ∷ []) s) =
        unfold handle_client in ap (λ p. (p.1, handle_lines accepts fd p.0 s)) line_of in
      step ∙ (unfold handle_lines in ap (λ t. ([], (t.0, t.1 ++ []))) one)

  -- A client with a nickname sends a message to a channel of a server that knows both, over a
  -- connection with nothing left over. Then every client of the channel, and no other, is sent one
  -- packet, the same for all, and whoever receives it has the channel, the sender's nickname and the
  -- escaped text for its callback and answers nothing. Names have no blanks, and no text has a zero byte.
  pub message_delivered :
      IsNick nick
      → (packet : Text) × ((handle_client accepts fd [] bytes s).1.1
          ≡ map (λ g. (g, packet)) c.clients)
        × (receive_loop [] packet
            ≡ ([], ([], record { channel = channel; sender = nick; message = escape text } ∷ [])))
  message_delivered n =
      let passed = private_message nick channel (escape text) in
      let out = on_privmsg-found accepts fd nick channel (escape text) s c known found in
      (
        serialize passed,
        ap (λ p. p.1.1) handle_client-message
            ∙ (append-nil (on_privmsg accepts fd channel (escape text) s).1 ∙ out.0),
        receive_loop-private nick channel (escape text) n is_name (escape-IsCarried text nonzero),
      )

  -- The database's row for the message, where it is open and takes the row, has the channel, the
  -- nickname and the text as the sender gave it, line breaks and all, if the text has no backslash.
  pub message_logged :
      accepts ≡ true
      → s.db_open ≡ true
      → HasNoBackslash text
      → (handle_client accepts fd [] bytes s).1.0.log
        ≡ s.log ++ record { channel = channel; nick = nick; message = text } ∷ []
  message_logged a o h =
      let out = on_privmsg-found accepts fd nick channel (escape text) s c known found in
      ap (λ p. p.1.0.log) handle_client-message ∙ (out.1 ∙ ground (arith, unescape-escape text h))
