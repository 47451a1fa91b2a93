-- ===== src/Irc/Wire.antt =====
-- A message and its wire form in irc/irc_server.cpp (Message::serialize, Message::parse).
use ida_swarm.Base.{
  ℕ, zero, suc, ◌≡◌, ◌≢◌, ◌≤◌, refl, sym, ap, subst, ◌∙◌, inl, inr, List, [], ◌∷◌, ◌++◌, append-nil,
  append_assoc, false, Text, drop, length, length-append, All, ◌==◌, arith, Bool-cases,
}
use ida_swarm.Irc.{
  Message, serialize_params, serialize_prefix, body, is_space, skip_spaces, word_of, next_token,
  until_newline, parse_params, parse_command, parse,
}

-- A text without blanks.
abbrev pub IsWord : Text → Type 0
IsWord = All (λ c. is_space c ≡ false)

-- A text that starts with a byte that is neither a blank nor ':', and has no blanks.
abbrev pub IsToken : Text → Type 0
IsToken [] = ⊥
IsToken (c ∷ s) = (c ≢ b':') × IsWord (c ∷ s)

abbrev pub IsLine : Text → Type 0
IsLine = All (λ c. c ≢ 10)

-- All parameters but the last are tokens, and the last one is on one line.
abbrev pub AreParams : List Text → Type 0
AreParams [] = Unit
AreParams (p ∷ []) = IsLine p
AreParams (p ∷ q ∷ ps) = IsToken p × AreParams (q ∷ ps)

word_of-append : (w s : Text) → IsWord w → word_of (w ++ b' ' ∷ s) ≡ (w, b' ' ∷ s)
unfolding word_of
word_of-append [] s h = refl
word_of-append (c ∷ w) s h = ground (arith, word_of-append w s h.1)

word_of_whole : (w : Text) → IsWord w → word_of w ≡ (w, [])
unfolding word_of
word_of_whole [] h = refl
word_of_whole (c ∷ w) h = ground (arith, word_of_whole w h.1)

skip-blank : (s : Text) → skip_spaces (b' ' ∷ s) ≡ skip_spaces s
unfolding skip_spaces
skip-blank s = refl

skip-word : (c : ℕ) (s : Text) → is_space c ≡ false → skip_spaces (c ∷ s) ≡ c ∷ s
unfolding skip_spaces
skip-word c s h = ground arith

until_newline-IsLine : (s : Text) → IsLine s → until_newline s ≡ s
unfolding until_newline
until_newline-IsLine [] h = refl
until_newline-IsLine (c ∷ s) h = ground (arith, until_newline-IsLine s h.1)

-- A token before a blank, with a blank before it or not.
next_token-word :
    (c : ℕ) (w s : Text) → IsWord (c ∷ w) → next_token (c ∷ (w ++ b' ' ∷ s)) ≡ (c ∷ w, b' ' ∷ s)
unfolding next_token
next_token-word c w s h = rw (skip-word c (w ++ b' ' ∷ s) h.0) (word_of-append (c ∷ w) s h)

next_token_whole : (c : ℕ) (w : Text) → IsWord (c ∷ w) → next_token (c ∷ w) ≡ (c ∷ w, [])
unfolding next_token
next_token_whole c w h = rw (skip-word c w h.0) (word_of_whole (c ∷ w) h)

next_token-blank : (s : Text) → next_token (b' ' ∷ s) ≡ next_token s
unfolding next_token skip_spaces
next_token-blank s = refl

word_of-join : (s : Text) → (word_of s).0 ++ (word_of s).1 ≡ s
unfolding word_of
word_of-join [] = refl
word_of-join (c ∷ s) = ground (arith, word_of-join s)

word_of-IsLine : (s : Text) → IsLine s → IsLine (word_of s).1
unfolding word_of
word_of-IsLine [] h = tt
word_of-IsLine (c ∷ s) h = elim (Bool-cases (is_space c)) [
  | inl t ↦ rw t h
  | inr f ↦ rw f (word_of-IsLine s h.1)
]

next_token-colon : (p : Text) → next_token (b' ' ∷ b':' ∷ p) ≡ (b':' ∷ (word_of p).0, (word_of p).1)
unfolding next_token skip_spaces word_of
next_token-colon p = refl

params_stop :
    (n : ℕ) (s t rest : Text)
    → next_token s ≡ (b':' ∷ t, rest)
    → parse_params (suc n) s ≡ (t ++ until_newline rest) ∷ []
unfolding parse_params
params_stop n s t rest e = ground arith

params_go :
    (n c : ℕ) (s t rest : Text)
    → next_token s ≡ (c ∷ t, rest)
    → (c == b':') ≡ false
    → parse_params (suc n) s ≡ (c ∷ t) ∷ parse_params n rest
unfolding parse_params
params_go n c s t rest e f = ground arith

-- The last parameter comes out whole, blanks and all.
last_param : (n : ℕ) (p : Text) → IsLine p → parse_params (suc n) (b' ' ∷ b':' ∷ p) ≡ p ∷ []
last_param n p h =
    params_stop n (b' ' ∷ b':' ∷ p) (word_of p).0 (word_of p).1 (next_token-colon p)
    ∙ ap (λ t. t ∷ [])
        (ap (λ r. (word_of p).0 ++ r) (until_newline-IsLine (word_of p).1 (word_of-IsLine p h))
          ∙ word_of-join p)

params_step :
    (n c : ℕ) (w s : Text)
    → IsToken (c ∷ w)
    → parse_params (suc n) (b' ' ∷ c ∷ (w ++ b' ' ∷ s)) ≡ (c ∷ w) ∷ parse_params n (b' ' ∷ s)
params_step n c w s h =
    params_go n c (b' ' ∷ c ∷ (w ++ b' ' ∷ s)) w (b' ' ∷ s)
      (next_token-blank (c ∷ (w ++ b' ' ∷ s)) ∙ next_token-word c w s h.1) (ground (arith, h.0))

serialize_params-blank :
    (q : Text) (ps : List Text)
    → serialize_params (q ∷ ps) ≡ b' ' ∷ drop 1 (serialize_params (q ∷ ps))
unfolding serialize_params drop
serialize_params-blank q [] = refl
serialize_params-blank q (p ∷ ps) = refl

no_params : (n : ℕ) → parse_params n [] ≡ []
unfolding parse_params next_token skip_spaces word_of
no_params zero = refl
no_params (suc n) = refl

parse-serialize_params :
    (ps : List Text) (n : ℕ)
    → AreParams ps
    → length (serialize_params ps) ≤ n
    → parse_params n (serialize_params ps) ≡ ps
unfolding serialize_params
parse-serialize_params [] n h l = no_params n
parse-serialize_params (p ∷ []) zero h l = absurd (omega arith)
parse-serialize_params (p ∷ []) (suc n) h l = last_param n p h
parse-serialize_params ([] ∷ q ∷ ps) n h l = absurd h.0
parse-serialize_params ((c ∷ w) ∷ q ∷ ps) zero h l = absurd (omega arith)
parse-serialize_params ((c ∷ w) ∷ q ∷ ps) (suc n) h l =
    let rest = serialize_params (q ∷ ps) in
    let blank = serialize_params-blank q ps in
    let short : length rest ≤ n = omega (arith, l, length-append w rest) in
    ap (λ r. parse_params (suc n) (b' ' ∷ c ∷ (w ++ r))) blank
    ∙ (params_step n c w (drop 1 rest) h.0
        ∙ (ap (λ r. (c ∷ w) ∷ parse_params n r) (sym blank)
            ∙ ap (λ r. (c ∷ w) ∷ r) (parse-serialize_params (q ∷ ps) n h.1 short)))

-- The command is one word, the prefix one without blanks, and the parameters are as above; a command
-- after no prefix does not start with ':'.
pub record IsWire (m : Message) : Type 0 where
  pub prefix_word : IsWord m.prefix
  pub command_token : IsToken m.command
  pub are_params : AreParams m.params

-- The token of a command, before its parameters or at the end.
next_token-command :
    (c : ℕ) (w : Text) (ps : List Text)
    → IsToken (c ∷ w)
    → next_token (c ∷ (w ++ serialize_params ps)) ≡ (c ∷ w, serialize_params ps)
next_token-command c w [] h =
    unfold serialize_params in
    (ap (λ s. next_token (c ∷ s)) (append-nil w) ∙ next_token_whole c w h.1)
next_token-command c w (p ∷ ps) h =
    let blank = serialize_params-blank p ps in
    subst (λ r. next_token (c ∷ (w ++ r)) ≡ (c ∷ w, r)) (sym blank)
      (next_token-word c w (drop 1 (serialize_params (p ∷ ps))) h.1)

command_then :
    (prefix : Text) (c : ℕ) (w : Text) (ps : List Text) (s : Text)
    → IsToken (c ∷ w)
    → AreParams ps
    → next_token s ≡ next_token (c ∷ (w ++ serialize_params ps))
    → parse_command prefix s ≡ record { prefix = prefix; command = c ∷ w; params = ps }
unfolding parse_command
command_then prefix c w ps s h a e =
    let token = e ∙ next_token-command c w ps h in
    let rest = serialize_params ps in
    let params : parse_params (length rest) rest ≡ ps =
      parse-serialize_params ps (length rest) a (omega arith) in
    ap
      (λ t.
        let m : Message = record {
          prefix = prefix;
          command = t.0;
          params = parse_params (length t.1) t.1;
        } in
        m)
      token
    ∙ ap (λ qs. let m : Message = record { prefix = prefix; command = c ∷ w; params = qs } in m)
        params

-- Parsing the line of a message gives it back.
pub parse-body : (m : Message) → IsWire m → parse (body m) ≡ m
unfolding body serialize_prefix parse drop
parse-body m v = parsed m.prefix m.command m.params v.prefix_word v.command_token v.are_params
  where
    parsed :
        (prefix command : Text) (ps : List Text)
        → IsWord prefix
        → IsToken command
        → AreParams ps
        → parse (serialize_prefix prefix ++ (command ++ serialize_params ps))
          ≡ record { prefix = prefix; command = command; params = ps }
    parsed [] [] ps p c a = absurd c
    parsed [] (c ∷ w) ps p h a =
        let other : (c == b':') ≡ false = ground (arith, h.0) in
        rw other (command_then [] c w ps (c ∷ (w ++ serialize_params ps)) h a refl)
    parsed (x ∷ xs) [] ps p c a = absurd c
    parsed (x ∷ xs) (c ∷ w) ps p h a =
        let tail = c ∷ (w ++ serialize_params ps) in
        let whole = next_token-word b':' (x ∷ xs) tail (refl, p) in
        let regroup = append_assoc xs (b' ' ∷ []) tail in
        let token : next_token (b':' ∷ x ∷ ((xs ++ b' ' ∷ []) ++ tail))
            ≡ (b':' ∷ x ∷ xs, b' ' ∷ tail) =
          ap (λ s. next_token (b':' ∷ x ∷ s)) regroup ∙ whole in
        ap (λ t. parse_command (drop 1 t.0) t.1) token
        ∙ command_then (x ∷ xs) c w ps (b' ' ∷ tail) h a (next_token-blank tail)
