-- ===== src/Irc/Informed.antt =====
-- What the clients of a channel of irc/irc_server.cpp have been sent, over every run of the server.
pub mod Sent
pub mod Channels
use ida_swarm.Base.{
  ℕ, ◌≡◌, refl, sym, ap, subst, ◌∙◌, inl, inr, List, [], ◌∷◌, ◌++◌, append-nil, append_assoc, map,
  map-append, Option, none, some, Bool, true, false, not, ◌&&◌, ◌||◌, Text, codes, text_eq,
  text_eq_iff, keep, keep-append, Any, lookup, insert, lookup-insert, ◌⊎◌, ◌==◌, ==_iff, ltb,
  if◌then◌else◌, arith, Bool-cases, Option-cases,
}
use ida_swarm.Irc.{Message, serialize, parse}
use ida_swarm.Irc.Escape.{unescape}
use ida_swarm.Irc.Server.{
  Channel, Server, Sends, new_channel, client_insert, client_erase, add_client, remove_client,
  should_store, broadcast, nick_of, touch, log_to_db, on_nick, on_join, on_privmsg, on_part,
  channel_of, notice, process_message, handle_line, without_client, disconnected, stop,
}
use ida_swarm.Irc.Informed.Sent.{
  sent_to, IsSubsequence, is_member, stop_here, IsSubsequence-same, IsSubsequence-append,
  IsSubsequence-more, IsSubsequence-after, sent_to-append, sent_to-all, sent_to-history,
  is_member-client_insert, is_member-client_erase, lookup-without_client, broadcast_informs,
}
use ida_swarm.Irc.Informed.Channels.{
  IsInformed, IsInformed-more, broadcast-IsInformed, join-IsInformed, without_client-IsInformed,
  stop-IsInformed,
}

-- What happens to a server.
pub data Event : Type 0 where
  line_from : Bool → ℕ → Text → Event
  gone : ℕ → Event
  stopped : Event

unfoldable pub step : Event → Server → Server × Sends
step (line_from accepts fd line) s = handle_line accepts fd line s
step (gone fd) s = (disconnected fd s, [])
step stopped s = (stop s, [])

-- The server after some events, and everything it has sent.
unfoldable pub run : List Event → Server × Sends → Server × Sends
run [] st = st
run (e ∷ es) (s, sent) = let (t, more) = step e s in run es (t, sent ++ more)

abbrev pub fresh : Bool → Server
fresh db_open = record { client_nicks = []; channels = []; db_open = db_open; log = [] }

-- An event keeps the property.
abbrev Keeps : Sends → Server × Sends → Type 0
Keeps sends (t, more) = IsInformed t.channels (sends ++ more)

module _ (s : Server) (sends : Sends) (v : IsInformed s.channels sends) where
  same-Keeps : Keeps sends (s, [])
  same-Keeps = IsInformed-more s.channels sends [] v

  join-Keeps : (fd : ℕ) (name : Text) → Keeps sends (on_join fd name s)
  unfolding on_join
  join-Keeps fd name =
      join-IsInformed s.channels sends v fd name
        (notice (codes "JOIN") (nick_of fd s.client_nicks) name)

  log_to_db-channels :
      (accepts : Bool) (channel nick message : Text) (t : Server)
      → (log_to_db accepts channel nick message t).channels ≡ t.channels
  unfolding log_to_db
  log_to_db-channels accepts channel nick message t = ground arith

  privmsg-Keeps :
      (accepts : Bool) (fd : ℕ) (name text : Text) → Keeps sends (on_privmsg accepts fd name text s)
  privmsg-Keeps accepts fd name text = elim (Option-cases (lookup name s.channels)) [
    | inl n ↦
        let out : on_privmsg accepts fd name text s ≡ (s, []) =
          unfold on_privmsg in (ground arith) in
        subst (Keeps sends) (sym out) same-Keeps
    | inr (c, e) ↦
        let m : Message = record {
          prefix = nick_of fd s.client_nicks;
          command = codes "PRIVMSG";
          params = name ∷ text ∷ [];
        } in
        let t : Server = record s {
          client_nicks = touch fd s.client_nicks;
          channels = insert name (broadcast m c).0 s.channels;
        } in
        let logged = log_to_db accepts name (nick_of fd s.client_nicks) (unescape text) t in
        let out : on_privmsg accepts fd name text s ≡ (logged, (broadcast m c).1) =
          unfold on_privmsg in (ground arith) in
        subst (Keeps sends) (sym out) (
          subst (λ cs. IsInformed cs (sends ++ (broadcast m c).1))
            (sym (log_to_db-channels accepts name (nick_of fd s.client_nicks) (unescape text) t))
            (broadcast-IsInformed s.channels sends v name m c (λ g h. v name c g e h)))
  ]

  part-Keeps : (fd : ℕ) (name : Text) → Keeps sends (on_part fd name s)
  part-Keeps fd name = elim (Option-cases (lookup name s.channels)) [
    | inl n ↦
        let out : on_part fd name s ≡ (s, []) = unfold on_part in (ground arith) in
        subst (Keeps sends) (sym out) same-Keeps
    | inr (c, e) ↦
        let m = notice (codes "PART") (nick_of fd s.client_nicks) name in
        let d = remove_client fd c in
        let t : Server = record s {
          client_nicks = touch fd s.client_nicks;
          channels = insert name (broadcast m d).0 s.channels;
        } in
        let out : on_part fd name s ≡ (t, (broadcast m d).1) = unfold on_part in (ground arith) in
        subst (Keeps sends) (sym out) (
          broadcast-IsInformed s.channels sends v name m d (λ g h.
            unfold remove_client in
            v name c g e (is_member-client_erase fd g c.clients (unfold remove_client in h))))
  ]

  Keeps-if :
      (b : Bool) (x y : Server × Sends)
      → Keeps sends x
      → Keeps sends y
      → Keeps sends (if b then x else y)
  Keeps-if true x y p q = p
  Keeps-if false x y p q = q

  privmsg_params-Keeps :
      (accepts : Bool) (fd : ℕ) (name : Text) (qs : List Text)
      → Keeps sends (elim qs [ [] ↦ (s, []) | text ∷ rest ↦ on_privmsg accepts fd name text s ])
  privmsg_params-Keeps accepts fd name [] = same-Keeps
  privmsg_params-Keeps accepts fd name (text ∷ rest) = privmsg-Keeps accepts fd name text

  process-Keeps :
      (accepts : Bool) (fd : ℕ) (prefix command : Text) (ps : List Text)
      → Keeps sends (
          process_message accepts fd (record { prefix = prefix; command = command; params = ps }) s)
  unfolding process_message on_nick
  process-Keeps accepts fd prefix command [] = same-Keeps
  process-Keeps accepts fd prefix command (p ∷ ps) =
      Keeps-if (text_eq command (codes "NICK")) _ _ (IsInformed-more s.channels sends _ v) (
        Keeps-if (text_eq command (codes "JOIN")) _ _ (join-Keeps fd p) (
          Keeps-if (text_eq command (codes "PRIVMSG")) _ _ (privmsg_params-Keeps accepts fd p ps)
            (Keeps-if (text_eq command (codes "PART")) _ _ (part-Keeps fd p) same-Keeps)))

  handle-Keeps :
      (accepts : Bool) (fd : ℕ) (line : Text) → Keeps sends (handle_line accepts fd line s)
  unfolding handle_line
  handle-Keeps accepts fd [] = same-Keeps
  handle-Keeps accepts fd (c ∷ line) =
      let m = parse (c ∷ line) in process-Keeps accepts fd m.prefix m.command m.params

  step-Keeps : (e : Event) → Keeps sends (step e s)
  unfolding step disconnected stop
  step-Keeps (line_from accepts fd line) = handle-Keeps accepts fd line
  step-Keeps (gone fd) =
      IsInformed-more (without_client fd s.channels) sends []
        (without_client-IsInformed s.channels sends v fd)
  step-Keeps stopped = stop-IsInformed (sends ++ [])

run-from :
    (es : List Event) (s : Server) (sends : Sends)
    → IsInformed s.channels sends
    → IsInformed (run es (s, sends)).0.channels (run es (s, sends)).1
unfolding run
run-from [] s sends v = v
run-from (e ∷ es) s sends v =
    run-from es (step e s).0 (sends ++ (step e s).1) (step-Keeps s sends v e)

-- After every sequence of lines, disconnections and stops, every client of a channel has been sent all
-- messages of the channel's history, in the order of the history.
pub run-IsInformed :
    (db_open : Bool) (es : List Event)
    → IsInformed (run es (fresh db_open, [])).0.channels (run es (fresh db_open, [])).1
run-IsInformed db_open es = run-from es (fresh db_open) [] (stop-IsInformed [])
