-- ===== src/Irc/Informed/Channels.antt =====
-- Which steps of a channel of irc/irc_server.cpp keep its clients informed of its history.
use ida_swarm.Base.{
  ℕ, ◌≡◌, sym, ap, subst, ◌∙◌, inl, inr, List, [], ◌++◌, append_assoc, map, some, true, Text,
  text_eq, lookup, insert, lookup-insert, ◌==◌, arith, Bool-cases, Option-cases,
}
use ida_swarm.Irc.{Message, serialize}
use ida_swarm.Irc.Server.{
  Channel, Sends, new_channel, client_insert, client_erase, add_client, remove_client, broadcast,
  channel_of, without_client,
}
use ida_swarm.Irc.Informed.Sent.{
  sent_to, IsSubsequence, is_member, stop_here, IsSubsequence-same, IsSubsequence-more,
  IsSubsequence-after, sent_to-append, sent_to-history, is_member-client_insert,
  is_member-client_erase, lookup-without_client, broadcast_informs,
}

-- Every client of every channel has been sent the channel's history, in order.
abbrev pub IsInformed : List (Text × Channel) → Sends → Type 0
IsInformed channels sends =
    (name : Text) (c : Channel) (fd : ℕ)
    → lookup name channels ≡ some c
    → is_member fd c.clients ≡ true
    → IsSubsequence (map serialize c.history) (sent_to fd sends)

pub IsInformed-more :
    (cs : List (Text × Channel)) (sends more : Sends)
    → IsInformed cs sends
    → IsInformed cs (sends ++ more)
IsInformed-more cs sends more v name c fd found h =
    subst (IsSubsequence (map serialize c.history)) (sym (sent_to-append fd sends more)) (
      IsSubsequence-more (map serialize c.history) (sent_to fd sends) (sent_to fd more)
        (v name c fd found h))

-- A channel takes another's place.
IsInformed-insert :
    (name : Text) (c : Channel) (cs : List (Text × Channel)) (sends more : Sends)
    → IsInformed cs sends
    → ((fd : ℕ)
        → is_member fd c.clients ≡ true
        → IsSubsequence (map serialize c.history) (sent_to fd (sends ++ more)))
    → IsInformed (insert name c cs) (sends ++ more)
IsInformed-insert name c cs sends more v w key d fd found h = elim (Bool-cases (text_eq name key)) [
  | inl t ↦
      let same : c ≡ d = ground (arith, lookup-insert name key c cs) in
      subst
        (λ e.
          is_member fd e.clients ≡ true
          → IsSubsequence (map serialize e.history) (sent_to fd (sends ++ more)))
        same (w fd) h
  | inr f ↦ IsInformed-more cs sends more v key d fd (ground (arith, lookup-insert name key c cs)) h
]

module _ (cs : List (Text × Channel)) (sends : Sends) (v : IsInformed cs sends) where
  channel_of-informed :
      (name : Text) (fd : ℕ)
      → is_member fd (channel_of name cs).clients ≡ true
      → IsSubsequence (map serialize (channel_of name cs).history) (sent_to fd sends)
  unfolding channel_of is_member
  channel_of-informed name fd h = elim (Option-cases (lookup name cs)) [
    | inl n ↦
        let empty : channel_of name cs ≡ new_channel = ground arith in
        subst (λ c. IsSubsequence (map serialize c.history) (sent_to fd sends)) (sym empty)
          (stop_here _)
    | inr (c, e) ↦
        let there : channel_of name cs ≡ c = ground arith in
        subst (λ d. IsSubsequence (map serialize d.history) (sent_to fd sends)) (sym there)
          (v name c fd e (subst (λ d. is_member fd d.clients ≡ true) there h))
  ]

  -- A broadcast to clients of a channel who know its history.
  pub broadcast-IsInformed :
      (name : Text) (m : Message) (c : Channel)
      → ((fd : ℕ)
          → is_member fd c.clients ≡ true
          → IsSubsequence (map serialize c.history) (sent_to fd sends))
      → IsInformed (insert name (broadcast m c).0 cs) (sends ++ (broadcast m c).1)
  broadcast-IsInformed name m c w =
      IsInformed-insert name (broadcast m c).0 cs sends (broadcast m c).1 v (λ fd h.
        broadcast_informs m c fd sends (unfold broadcast in h) (w fd (unfold broadcast in h)))

  -- Who joins is sent the whole history last.
  joiner :
      (fd : ℕ) (ms : List Message) (first : Sends)
      → IsSubsequence
          (map serialize ms)
          (sent_to fd (sends ++ (first ++ map (λ k. (fd, serialize k)) ms)))
  joiner fd ms first =
      let last = map (λ k. (fd, serialize k)) ms in
      let split =
        sent_to-append fd sends (first ++ last)
        ∙ ap (λ t. sent_to fd sends ++ t) (sent_to-append fd first last) in
      subst (IsSubsequence (map serialize ms)) (sym split) (
        IsSubsequence-after (map serialize ms) (sent_to fd sends)
          (sent_to fd first ++ sent_to fd last)
          (IsSubsequence-after (map serialize ms) (sent_to fd first) (sent_to fd last) (
            subst (IsSubsequence (map serialize ms)) (sym (sent_to-history fd ms))
              (IsSubsequence-same (map serialize ms)))))

  pub join-IsInformed :
      (fd : ℕ) (name : Text) (m : Message)
      → (let b = broadcast m (add_client fd (channel_of name cs)) in
          IsInformed
            (insert name b.0 cs)
            (sends ++ (b.1 ++ map (λ k. (fd, serialize k)) b.0.history)))
  join-IsInformed fd name m =
      let c = add_client fd (channel_of name cs) in
      let b = broadcast m c in
      let history : Sends = map (λ k. (fd, serialize k)) b.0.history in
      IsInformed-insert name b.0 cs sends (b.1 ++ history) v (λ g h. elim (Bool-cases (g == fd)) [
        | inl t ↦
            let same : fd ≡ g = ground arith in
            subst
              (λ x.
                IsSubsequence (map serialize b.0.history) (sent_to x (sends ++ (b.1 ++ history))))
              same (joiner fd b.0.history b.1)
        | inr f ↦
            let there : is_member g (client_insert fd (channel_of name cs).clients) ≡ true =
              unfold broadcast add_client in h in
            let old : is_member g (channel_of name cs).clients ≡ true =
              ground (arith, is_member-client_insert fd g (channel_of name cs).clients) in
            let told =
              broadcast_informs m c g sends (unfold broadcast add_client in h)
                (unfold add_client in channel_of-informed name g old) in
            subst (λ x. IsSubsequence (map serialize b.0.history) (sent_to g x))
              (append_assoc sends b.1 history)
              (subst (IsSubsequence (map serialize b.0.history))
                (sym (sent_to-append g (sends ++ b.1) history))
                (IsSubsequence-more (map serialize b.0.history) (sent_to g (sends ++ b.1))
                  (sent_to g history) told))
      ])

  pub without_client-IsInformed : (fd : ℕ) → IsInformed (without_client fd cs) sends
  unfolding remove_client
  without_client-IsInformed fd name c g found h =
      let (d, old, same) = lookup-without_client fd name cs c found in
      let there : is_member g (client_erase fd d.clients) ≡ true = ground arith in
      subst (λ e. IsSubsequence (map serialize e.history) (sent_to g sends)) (sym same)
        (v name d g old (is_member-client_erase fd g d.clients there))

pub stop-IsInformed : (sends : Sends) → IsInformed [] sends
unfolding lookup
stop-IsInformed sends name c fd found h = absurd (ground arith)
