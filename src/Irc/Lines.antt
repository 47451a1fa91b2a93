-- ===== src/Irc/Lines.antt =====
-- The lines of a connection in irc/irc_server.cpp (handle_client) and irc/irc_client.cpp (receive_loop):
-- what has arrived is kept until its line is complete.
use ida_swarm.Base.{
  ℕ, zero, suc, ◌+◌, ◌≡◌, ◌≢◌, ◌≤◌, refl, sym, ap, subst, ◌∙◌, inl, inr, List, [], ◌∷◌, ◌++◌,
  append-nil, append_assoc, Option, none, some, ◌&&◌, Text, length, All, ◌==◌, if◌then◌else◌, arith,
  Bool-cases, Option-cases,
}

-- What an appended char buffer adds: the bytes before a zero byte.
unfoldable pub c_string : Text → Text
c_string [] = []
c_string (c ∷ s) = if c == 0 then [] else c ∷ c_string s

unfoldable pub cons_line : ℕ → Option (Text × Text) → Option (Text × Text)
cons_line c none = none
cons_line c (some (line, rest)) = some (c ∷ line, rest)

-- find("\r\n"): the text before and after the first end of a line.
unfoldable pub find_crlf : Text → Option (Text × Text)
unfolding cons_line
find_crlf [] = none
find_crlf (c ∷ []) = none
find_crlf (c ∷ d ∷ s) =
    let further = cons_line c (find_crlf (d ∷ s)) in
    if c == 13 && d == 10 then some ([], s) else further

-- The loop over complete lines: the lines, and what stays in the buffer. A line and its end have two
-- bytes or more, so one round for each byte is enough.
unfoldable pub take_lines : ℕ → Text → List Text × Text
take_lines zero s = ([], s)
take_lines (suc n) s = elim (find_crlf s) [
  | none ↦ ([], s)
  | some (line, rest) ↦ let (more, left) = take_lines n rest in (line ∷ more, left)
]

unfoldable pub lines_of : Text → List Text × Text
lines_of s = take_lines (length s) s

-- What one recv() brings, with the buffer so far.
unfoldable pub receive : Text → Text → List Text × Text
receive buffer bytes = lines_of (buffer ++ c_string bytes)

-- What several bring.
unfoldable pub receive_all : Text → List Text → List Text × Text
receive_all buffer [] = ([], buffer)
receive_all buffer (bytes ∷ more) =
    let (lines, rest) = receive buffer bytes in
    let (others, left) = receive_all rest more in (lines ++ others, left)

find_crlf-append :
    (a b line rest : Text)
    → find_crlf a ≡ some (line, rest)
    → find_crlf (a ++ b) ≡ some (line, rest ++ b)
unfolding find_crlf
find_crlf-append [] b line rest h = absurd (ground arith)
find_crlf-append (c ∷ []) b line rest h = absurd (ground arith)
find_crlf-append (c ∷ d ∷ a) b line rest h = elim (Bool-cases (c == 13 && d == 10)) [
  | inl t ↦ ground arith
  | inr f ↦ elim (Option-cases (find_crlf (d ∷ a))) [
    | inl n ↦ absurd (ground arith)
    | inr ((l, r), e) ↦ ground (arith, find_crlf-append (d ∷ a) b l r e)
  ]
]

find_crlf-length :
    (a line rest : Text) → find_crlf a ≡ some (line, rest) → length rest + 2 ≤ length a
unfolding find_crlf
find_crlf-length [] line rest h = absurd (ground arith)
find_crlf-length (c ∷ []) line rest h = absurd (ground arith)
find_crlf-length (c ∷ d ∷ a) line rest h = elim (Bool-cases (c == 13 && d == 10)) [
  | inl t ↦ let same : a ≡ rest = ground arith in omega (arith, ap length same)
  | inr f ↦ elim (Option-cases (find_crlf (d ∷ a))) [
    | inl n ↦ absurd (ground arith)
    | inr ((l, r), e) ↦
        let same : r ≡ rest = ground arith in
        omega (arith, ap length same, find_crlf-length (d ∷ a) l r e)
  ]
]

no_lines : (m : ℕ) → take_lines m [] ≡ ([], [])
unfolding take_lines find_crlf
no_lines zero = refl
no_lines (suc m) = refl

-- Fuel beyond the length changes nothing.
take_lines_enough :
    (n m : ℕ) (s : Text) → length s ≤ n → length s ≤ m → take_lines n s ≡ take_lines m s
unfolding take_lines
take_lines_enough zero m [] hn hm = sym (no_lines m)
take_lines_enough zero m (c ∷ s) hn hm = absurd (omega arith)
take_lines_enough (suc n) zero [] hn hm = no_lines (suc n)
take_lines_enough (suc n) zero (c ∷ s) hn hm = absurd (omega arith)
take_lines_enough (suc n) (suc m) s hn hm = elim (Option-cases (find_crlf s)) [
  | inl e ↦ ground arith
  | inr ((l, r), e) ↦
      let shorter = find_crlf-length s l r e in
      ground (arith, take_lines_enough n m r (omega arith) (omega arith))
]

pub lines_step :
    (s line rest : Text)
    → find_crlf s ≡ some (line, rest)
    → lines_of s ≡ (line ∷ (lines_of rest).0, (lines_of rest).1)
unfolding lines_of
lines_step [] line rest e = absurd (unfold find_crlf in (ground arith))
lines_step (c ∷ s) line rest e =
    let shorter = find_crlf-length (c ∷ s) line rest e in
    let enough = take_lines_enough (length s) (length rest) rest (omega arith) (omega arith) in
    unfold take_lines in (ground (arith, enough))

pub lines_none : (s : Text) → find_crlf s ≡ none → lines_of s ≡ ([], s)
unfolding lines_of take_lines
lines_none [] e = refl
lines_none (c ∷ s) e = ground arith

-- The lines of a first part, and then those of its rest with the second part.
lines_of-append :
    (n : ℕ) (a b : Text)
    → length a ≤ n
    → lines_of (a ++ b)
      ≡ ((lines_of a).0 ++ (lines_of ((lines_of a).1 ++ b)).0, (lines_of ((lines_of a).1 ++ b)).1)
lines_of-append zero [] b h = unfold lines_of take_lines in refl
lines_of-append zero (c ∷ a) b h = absurd (omega arith)
lines_of-append (suc n) a b h = elim (Option-cases (find_crlf a)) [
  | inl e ↦
      let whole = lines_none a e in
      subst (λ p. lines_of (a ++ b) ≡ (p.0 ++ (lines_of (p.1 ++ b)).0, (lines_of (p.1 ++ b)).1))
        (sym whole) refl
  | inr ((l, r), e) ↦
      let shorter = find_crlf-length a l r e in
      let ih = lines_of-append n r b (omega arith) in
      let first = lines_step (a ++ b) l (r ++ b) (find_crlf-append a b l r e) in
      subst (λ p. lines_of (a ++ b) ≡ (p.0 ++ (lines_of (p.1 ++ b)).0, (lines_of (p.1 ++ b)).1))
        (sym (lines_step a l r e)) (first ∙ ap (λ p. (l ∷ p.0, p.1)) ih)
]

-- No line is left in the buffer.
rest_none : (n : ℕ) (s : Text) → length s ≤ n → find_crlf (lines_of s).1 ≡ none
rest_none zero [] h = unfold lines_of take_lines find_crlf in refl
rest_none zero (c ∷ s) h = absurd (omega arith)
rest_none (suc n) s h = elim (Option-cases (find_crlf s)) [
  | inl e ↦ subst (λ p. find_crlf p.1 ≡ none) (sym (lines_none s e)) e
  | inr ((l, r), e) ↦
      let shorter = find_crlf-length s l r e in
      subst (λ p. find_crlf p.1 ≡ none) (sym (lines_step s l r e)) (rest_none n r (omega arith))
]

pub c_string_whole : (s : Text) → All (λ c. c ≢ 0) s → c_string s ≡ s
unfolding c_string
c_string_whole [] h = refl
c_string_whole (c ∷ s) h = ground (arith, c_string_whole s h.1)

-- The bytes of all parts.
abbrev pub join : List Text → Text
join [] = []
join (s ∷ ss) = s ++ join ss

receive_all-join :
    (buffer : Text) (parts : List Text)
    → find_crlf buffer ≡ none
    → All (All (λ c. c ≢ 0)) parts
    → receive_all buffer parts ≡ lines_of (buffer ++ join parts)
unfolding receive_all receive
receive_all-join buffer [] e h = sym (ap lines_of (append-nil buffer) ∙ lines_none buffer e)
receive_all-join buffer (s ∷ ss) e h =
    let q = lines_of (buffer ++ s) in
    let ih =
      receive_all-join q.1 ss (rest_none (length (buffer ++ s)) (buffer ++ s) (omega arith)) h.1 in
    ap
      (λ t.
        let p = lines_of (buffer ++ t) in (p.0 ++ (receive_all p.1 ss).0, (receive_all p.1 ss).1))
      (c_string_whole s h.0)
    ∙ (ap (λ p. (q.0 ++ p.0, p.1)) ih
        ∙ (sym (lines_of-append (length (buffer ++ s)) (buffer ++ s) (join ss) (omega arith))
            ∙ ap lines_of (append_assoc buffer s (join ss))))

-- However the bytes of a connection, none of them zero, are cut into parts, the lines that the loop
-- hands on and what it keeps are those of the whole text.
pub receive_all_lem :
    (parts : List Text)
    → All (All (λ c. c ≢ 0)) parts
    → receive_all [] parts ≡ lines_of (join parts)
receive_all_lem parts h = receive_all-join [] parts (unfold find_crlf in refl) h
