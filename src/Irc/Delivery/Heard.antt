-- ===== src/Irc/Delivery/Heard.antt =====
-- What a client of irc/irc_client.cpp hears of a message that irc/irc_server.cpp passes on, byte for byte.
use ida_swarm.Base.{
  ℕ, ◌≡◌, ◌≢◌, refl, sym, ap, subst, ◌∙◌, inl, inr, List, [], ◌∷◌, ◌++◌, append_assoc, none, some,
  false, Text, codes, text_eq, take, All, All-append, ◌==◌, arith, Bool-cases,
}
use ida_swarm.Irc.{Message, serialize, body, crlf, serialize_params, serialize_prefix, is_space}
use ida_swarm.Irc.Wire.{IsWord, IsToken}
use ida_swarm.Irc.Lines.{
  receive, lines_of, find_crlf, cons_line, c_string_whole, lines_step, lines_none,
}
use ida_swarm.Irc.Escape.{escape, escape_byte, IsOneLine, escape-IsOneLine}
use ida_swarm.Irc.Client.{
  Incoming, split_at, sender_of, text_of, privmsg_of, incoming_of, hear_line, hear_lines,
  receive_loop,
}

-- Bytes that a connection carries as they are, inside a line.
abbrev pub IsCarried : Text → Type 0
IsCarried = All (λ c. (c ≢ 0) × (c ≢ 13))

-- A nickname or a channel: a token without zero bytes.
abbrev pub IsName : Text → Type 0
IsName s = IsToken s × All (λ c. c ≢ 0) s

abbrev pub IsNonzero : Text → Type 0
IsNonzero = All (λ c. c ≢ 0)

find_crlf-other : (c : ℕ) (s : Text) → c ≢ 13 → find_crlf (c ∷ s) ≡ cons_line c (find_crlf s)
unfolding find_crlf cons_line
find_crlf-other c [] h = refl
find_crlf-other c (d ∷ s) h = ground (arith, h)

find_crlf-line : (s : Text) → IsCarried s → find_crlf (s ++ crlf) ≡ some (s, [])
find_crlf-line [] h = unfold find_crlf in refl
find_crlf-line (c ∷ s) h =
    find_crlf-other c (s ++ crlf) h.0.1
    ∙ (ap (cons_line c) (find_crlf-line s h.1) ∙ (unfold cons_line in refl))

pub All-map {ℓ} :
    {A : Type ℓ} {P Q : A → Type 0} (f : (x : A) → P x → Q x) (xs : List A) → All P xs → All Q xs
All-map f [] h = tt
All-map f (x ∷ xs) h = (f x h.0, All-map f xs h.1)

-- One line that arrives whole.
pub receive-line : (s : Text) → IsCarried s → receive [] (s ++ crlf) ≡ (s ∷ [], [])
unfolding receive
receive-line s h =
    let nonzero = All-append (λ c. c ≢ 0) s crlf (All-map (λ c p. p.0) s h) (omega arith) in
    ap lines_of (c_string_whole (s ++ crlf) nonzero)
    ∙ (lines_step (s ++ crlf) s [] (find_crlf-line s h)
        ∙ ap (λ p. (s ∷ p.0, p.1)) (lines_none [] (unfold find_crlf in refl)))

escape_byte-All :
    (P : ℕ → Type 0) (byte letter : ℕ) (s : Text)
    → P b'\\'
    → P letter
    → All P s
    → All P (escape_byte byte letter s)
unfolding escape_byte
escape_byte-All P byte letter [] b l h = tt
escape_byte-All P byte letter (c ∷ s) b l h =
    let ih = escape_byte-All P byte letter s b l h.1 in
    elim (Bool-cases (c == byte)) [ inl t ↦ rw t (b, (l, ih)) | inr f ↦ rw f (h.0, ih) ]

escape-IsNonzero : (s : Text) → IsNonzero s → IsNonzero (escape s)
unfolding escape
escape-IsNonzero s h =
    escape_byte-All (λ c. c ≢ 0) 13 b'r' (escape_byte 10 b'n' s) (omega arith) (omega arith)
      (escape_byte-All (λ c. c ≢ 0) 10 b'n' s (omega arith) (omega arith) h)

-- The message that a client's line stands for, and the one that the server passes on.
unfoldable pub private_message : Text → Text → Text → Message
private_message nick channel text = record {
  prefix = nick;
  command = codes "PRIVMSG";
  params = channel ∷ text ∷ [];
}

-- A nickname has a byte or more, none of them a blank, a zero byte or '!'.
abbrev pub IsNick : Text → Type 0
IsNick [] = ⊥
IsNick (c ∷ s) = All (λ d. (is_space d ≡ false) × (d ≢ 0) × (d ≢ b'!')) (c ∷ s)

IsToken-IsWord : (s : Text) → IsToken s → IsWord s
IsToken-IsWord [] h = absurd h
IsToken-IsWord (c ∷ s) h = h.1

pub IsName-IsCarried : (s : Text) → IsName s → IsCarried s
IsName-IsCarried [] h = absurd h.0
IsName-IsCarried (c ∷ s) (t, z) = both (c ∷ s) t.1 z
  where
    both : (s : Text) → IsWord s → IsNonzero s → IsCarried s
    both [] w n = tt
    both (d ∷ ds) w n = ((n.0, ground (arith, w.0)), both ds w.1 n.1)

pub escape-IsCarried : (s : Text) → IsNonzero s → IsCarried (escape s)
escape-IsCarried s h = both (escape s) (escape-IsNonzero s h) (escape-IsOneLine s)
  where
    both : (s : Text) → IsNonzero s → IsOneLine s → IsCarried s
    both [] n o = tt
    both (d ∷ ds) n o = ((n.0, o.0.1), both ds n.1 o.1)

pub params-IsCarried :
    (channel text : Text)
    → IsCarried channel
    → IsCarried text
    → IsCarried (codes "PRIVMSG" ++ serialize_params (channel ∷ text ∷ []))
unfolding serialize_params
params-IsCarried channel text c t =
    let P : ℕ → Type 0 = λ d. (d ≢ 0) × (d ≢ 13) in
    All-append P (codes "PRIVMSG ") (channel ++ b' ' ∷ b':' ∷ text) (ground arith)
      (All-append P channel (b' ' ∷ b':' ∷ text) c (ground arith, (ground arith, t)))

-- The line of a message from someone, as the client takes it apart.
body-private :
    (c : ℕ) (s channel text : Text)
    → body (private_message (c ∷ s) channel text)
      ≡ (b':' ∷ c ∷ s) ++ b' ' ∷ (codes "PRIVMSG" ++ serialize_params (channel ∷ text ∷ []))
unfolding body serialize_prefix private_message
body-private c s channel text =
    ap (λ t. b':' ∷ c ∷ t)
      (append_assoc s (b' ' ∷ []) (codes "PRIVMSG" ++ serialize_params (channel ∷ text ∷ [])))

pub split_at-append :
    (byte : ℕ) (w s : Text) → All (λ c. c ≢ byte) w → split_at byte (w ++ byte ∷ s) ≡ some (w, s)
unfolding split_at
split_at-append byte [] s h = ground arith
split_at-append byte (c ∷ w) s h = ground (arith, split_at-append byte w s h.1, h.0)

split_at-none : (byte : ℕ) (w : Text) → All (λ c. c ≢ byte) w → split_at byte w ≡ none
unfolding split_at
split_at-none byte [] h = refl
split_at-none byte (c ∷ w) h = ground (arith, split_at-none byte w h.1, h.0)

incoming_of_lem :
    (line prefix channel rest r t : Text)
    → split_at b' ' line ≡ some (prefix, rest)
    → split_at b' ' rest ≡ some (codes "PRIVMSG", r)
    → split_at b' ' r ≡ some (channel, t)
    → incoming_of line
      ≡ some (record { channel = channel; sender = sender_of prefix; message = text_of t })
unfolding incoming_of privmsg_of text_eq
incoming_of_lem line prefix channel rest r t e f g = ground arith

sender_of_lem : (s : Text) → All (λ c. c ≢ b'!') s → sender_of (b':' ∷ s) ≡ s
unfolding sender_of
sender_of_lem s h = ground (arith, split_at-none b'!' s h)

text_of_lem : (s : Text) → text_of (b':' ∷ s) ≡ s
unfolding text_of split_at
text_of_lem s = refl

privmsg_word :
    (channel text : Text)
    → split_at b' ' (codes "PRIVMSG" ++ serialize_params (channel ∷ text ∷ []))
      ≡ some (codes "PRIVMSG", channel ++ b' ' ∷ b':' ∷ text)
unfolding serialize_params
privmsg_word channel text =
    split_at-append b' ' (codes "PRIVMSG") (channel ++ b' ' ∷ b':' ∷ text) (ground arith)

-- What a client hears of a message that the server passes on.
incoming_of-private :
    (c : ℕ) (s channel text : Text)
    → IsNick (c ∷ s)
    → IsWord channel
    → incoming_of (body (private_message (c ∷ s) channel text))
      ≡ some (record { channel = channel; sender = c ∷ s; message = text })
incoming_of-private c s channel text h w =
    let rest = codes "PRIVMSG" ++ serialize_params (channel ∷ text ∷ []) in
    let prefix : Text = b':' ∷ c ∷ s in
    let no_blank : All (λ d. d ≢ b' ') prefix =
      ((λ e. omega arith), All-map (λ d p. (λ e. ground (arith, p.0))) (c ∷ s) h) in
    let no_mark : All (λ d. d ≢ b'!') (c ∷ s) = All-map (λ d p. p.2) (c ∷ s) h in
    let channel_word : All (λ d. d ≢ b' ') channel =
      All-map (λ d p. (λ e. ground (arith, p))) channel w in
    let parts =
      incoming_of_lem (prefix ++ b' ' ∷ rest) prefix channel rest (channel ++ b' ' ∷ b':' ∷ text)
        (b':' ∷ text) (split_at-append b' ' prefix rest no_blank) (privmsg_word channel text)
        (split_at-append b' ' channel (b':' ∷ text) channel_word) in
    ap incoming_of (body-private c s channel text)
    ∙ (parts
        ∙ (ap
              (λ x.
                some (record { channel = channel; sender = x; message = text_of (b':' ∷ text) }))
              (sender_of_lem (c ∷ s) no_mark)
            ∙ ap (λ x. some (record { channel = channel; sender = c ∷ s; message = x }))
                (text_of_lem text)))

hear_line-message :
    (d : ℕ) (line : Text) (m : Incoming)
    → (d == b'P') ≡ false
    → incoming_of (d ∷ line) ≡ some m
    → hear_line (d ∷ line) ≡ ([], m ∷ [])
unfolding hear_line text_eq take
hear_line-message d line m h e = ground arith

hear_line-private :
    (nick channel text : Text)
    → IsNick nick
    → IsWord channel
    → hear_line (body (private_message nick channel text))
      ≡ ([], record { channel = channel; sender = nick; message = text } ∷ [])
hear_line-private [] channel text h w = absurd h
hear_line-private (c ∷ s) channel text h w =
    let line = body-private c s channel text in
    let heard = sym (ap incoming_of line) ∙ incoming_of-private c s channel text h w in
    ap hear_line line
    ∙ hear_line-message b':'
        (c ∷ (s ++ b' ' ∷ (codes "PRIVMSG" ++ serialize_params (channel ∷ text ∷ []))))
        (record { channel = channel; sender = c ∷ s; message = text }) refl heard

private-IsCarried :
    (nick channel text : Text)
    → IsNick nick
    → IsCarried channel
    → IsCarried text
    → IsCarried (body (private_message nick channel text))
private-IsCarried [] channel text h c t = absurd h
private-IsCarried (d ∷ s) channel text h c t =
    let P : ℕ → Type 0 = λ x. (x ≢ 0) × (x ≢ 13) in
    let rest = codes "PRIVMSG" ++ serialize_params (channel ∷ text ∷ []) in
    let nick : All P (d ∷ s) = All-map (λ x p. (p.1, (λ e. ground (arith, p.0)))) (d ∷ s) h in
    let whole : All P ((b':' ∷ d ∷ s) ++ b' ' ∷ rest) =
      All-append P (b':' ∷ d ∷ s) (b' ' ∷ rest) (ground arith, nick)
        (ground arith, params-IsCarried channel text c t) in
    subst (All P) (sym (body-private d s channel text)) whole

pub receive_loop-private :
    (nick channel text : Text)
    → IsNick nick
    → IsName channel
    → IsCarried text
    → receive_loop [] (serialize (private_message nick channel text))
      ≡ ([], ([], record { channel = channel; sender = nick; message = text } ∷ []))
unfolding receive_loop serialize hear_lines
receive_loop-private nick channel text n c t =
    let line = body (private_message nick channel text) in
    let carried = private-IsCarried nick channel text n (IsName-IsCarried channel c) t in
    ap (λ p. (p.1, hear_lines p.0)) (receive-line line carried)
    ∙ ap (λ p. ([], (p.0 ++ [], p.1 ++ [])))
        (hear_line-private nick channel text n (IsToken-IsWord channel c.0))
