-- ===== src/Irc/Escape.antt =====
-- Line breaks in a message: irc/irc_client.cpp writes them as two characters, irc/irc_server.cpp turns
-- these back for its database.
use ida_swarm.Base.{
  ℕ, ◌≡◌, ◌≢◌, refl, ap, ◌∙◌, inl, inr, [], ◌∷◌, true, false, ◌&&◌, Text, All, ◌==◌, if◌then◌else◌,
  arith, Bool-cases,
}

-- The loop that puts a backslash and a letter for one byte.
unfoldable pub escape_byte : ℕ → ℕ → Text → Text
escape_byte byte letter [] = []
escape_byte byte letter (c ∷ s) =
    let rest = escape_byte byte letter s in if c == byte then b'\\' ∷ letter ∷ rest else c ∷ rest

unfoldable pub escape : Text → Text
escape s = escape_byte 13 b'r' (escape_byte 10 b'n' s)

-- The loop that puts one byte for a backslash and a letter.
unfoldable pub unescape_byte : ℕ → ℕ → Text → Text
unescape_byte byte letter [] = []
unescape_byte byte letter (c ∷ []) = c ∷ []
unescape_byte byte letter (c ∷ d ∷ s) = elim (c == b'\\' && d == letter) [
  | true ↦ byte ∷ unescape_byte byte letter s
  | false ↦ c ∷ unescape_byte byte letter (d ∷ s)
]

unfoldable pub unescape : Text → Text
unescape s = unescape_byte 13 b'r' (unescape_byte 10 b'n' s)

-- A text without line breaks.
abbrev pub IsOneLine : Text → Type 0
IsOneLine = All (λ c. (c ≢ 10) × (c ≢ 13))

abbrev pub HasNoBackslash : Text → Type 0
HasNoBackslash = All (λ c. c ≢ b'\\')

unescape-other :
    (byte letter c : ℕ) (s : Text)
    → c ≢ b'\\'
    → unescape_byte byte letter (c ∷ s) ≡ c ∷ unescape_byte byte letter s
unfolding unescape_byte
unescape-other byte letter c [] h = refl
unescape-other byte letter c (d ∷ s) h = ground (arith, h)

unescape-pair :
    (byte letter : ℕ) (s : Text)
    → unescape_byte byte letter (b'\\' ∷ letter ∷ s) ≡ byte ∷ unescape_byte byte letter s
unfolding unescape_byte
unescape-pair byte letter s = ground arith

unescape-other_letter :
    (byte letter d : ℕ) (s : Text)
    → (d == letter) ≡ false
    → d ≢ b'\\'
    → unescape_byte byte letter (b'\\' ∷ d ∷ s) ≡ b'\\' ∷ d ∷ unescape_byte byte letter s
unescape-other_letter byte letter d s h k =
    let step : unescape_byte byte letter (b'\\' ∷ d ∷ s)
        ≡ b'\\' ∷ unescape_byte byte letter (d ∷ s) =
      unfold unescape_byte in (ground arith) in
    step ∙ ap (λ t. b'\\' ∷ t) (unescape-other byte letter d s k)

-- One pass undone: the pass for line feeds leaves what the pass for carriage returns wrote.
unescape-escape_inner :
    (s : Text)
    → HasNoBackslash s
    → unescape_byte 10 b'n' (escape_byte 13 b'r' (escape_byte 10 b'n' s)) ≡ escape_byte 13 b'r' s
unfolding escape_byte
unescape-escape_inner [] h = unfold unescape_byte in refl
unescape-escape_inner (c ∷ s) h =
    let ih = unescape-escape_inner s h.1 in
    let t = escape_byte 13 b'r' (escape_byte 10 b'n' s) in
    elim (Bool-cases (c == 10)) [
      | inl feed ↦ ground (arith, ih, unescape-pair 10 b'n' t)
      | inr plain ↦ elim (Bool-cases (c == 13)) [
        | inl ret ↦ ground (arith, ih, unescape-other_letter 10 b'n' b'r' t refl)
        | inr other ↦ ground (arith, ih, unescape-other 10 b'n' c t h.0)
      ]
    ]

unescape-escape_outer :
    (s : Text) → HasNoBackslash s → unescape_byte 13 b'r' (escape_byte 13 b'r' s) ≡ s
unfolding escape_byte
unescape-escape_outer [] h = unfold unescape_byte in refl
unescape-escape_outer (c ∷ s) h =
    let ih = unescape-escape_outer s h.1 in
    let t = escape_byte 13 b'r' s in
    ground (arith, ih, unescape-pair 13 b'r' t, unescape-other 13 b'r' c t h.0)

-- What was escaped has no line breaks.
pub escape-IsOneLine : (s : Text) → IsOneLine (escape s)
unfolding escape escape_byte
escape-IsOneLine [] = tt
escape-IsOneLine (c ∷ s) = elim (Bool-cases (c == 10)) [
  | inl feed ↦ rw feed (
    ((λ e. ground arith), (λ e. ground arith)),
    (((λ e. ground arith), (λ e. ground arith)), escape-IsOneLine s),
  )
  | inr plain ↦ rw plain (elim (Bool-cases (c == 13)) [
    | inl ret ↦ rw ret (
      ((λ e. ground arith), (λ e. ground arith)),
      (((λ e. ground arith), (λ e. ground arith)), escape-IsOneLine s),
    )
    | inr other ↦ rw other (((λ e. ground arith), (λ e. ground arith)), escape-IsOneLine s)
  ])
]

-- A message without backslashes comes back from the escape as it was.
pub unescape-escape : (s : Text) → HasNoBackslash s → unescape (escape s) ≡ s
unfolding escape unescape
unescape-escape s h =
    ap (unescape_byte 13 b'r') (unescape-escape_inner s h) ∙ unescape-escape_outer s h
