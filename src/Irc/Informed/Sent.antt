-- ===== src/Irc/Informed/Sent.antt =====
-- What one socket has been sent by irc/irc_server.cpp, and how the steps of a channel change it.
use ida_swarm.Base.{
  ℕ, ◌≡◌, refl, sym, ap, subst, ◌∙◌, inl, inr, List, [], ◌∷◌, ◌++◌, append-nil, map, map-append,
  some, Bool, true, false, ◌||◌, Text, text_eq, keep, keep-append, lookup, ◌==◌, if◌then◌else◌,
  arith, Bool-cases,
}
use ida_swarm.Irc.{Message, serialize}
use ida_swarm.Irc.Server.{
  Channel, Sends, client_insert, client_erase, remove_client, should_store, broadcast,
  without_client,
}

-- What one socket has been sent, in order.
unfoldable pub sent_to : ℕ → Sends → List Text
sent_to fd sends = map (λ p. p.1) (keep (λ p. fd == p.0) sends)

-- The first list is what is left of the second one when some elements are taken out.
pub data IsSubsequence : List Text → List Text → Type 0 where
  stop_here : (ys : List Text) → IsSubsequence [] ys
  both : {xs ys : List Text} (x : Text) → IsSubsequence xs ys → IsSubsequence (x ∷ xs) (x ∷ ys)
  skip : {xs ys : List Text} (y : Text) → IsSubsequence xs ys → IsSubsequence xs (y ∷ ys)

-- Whether a socket is among some.
unfoldable pub is_member : ℕ → List ℕ → Bool
is_member fd [] = false
is_member fd (g ∷ s) = fd == g || is_member fd s

pub IsSubsequence-same : (xs : List Text) → IsSubsequence xs xs
IsSubsequence-same [] = stop_here []
IsSubsequence-same (x ∷ xs) = both x (IsSubsequence-same xs)

pub IsSubsequence-append :
    {xs ys us vs : List Text}
    → IsSubsequence xs ys
    → IsSubsequence us vs
    → IsSubsequence (xs ++ us) (ys ++ vs)
IsSubsequence-append (stop_here []) q = q
IsSubsequence-append (stop_here (y ∷ ys)) q = skip y (IsSubsequence-append (stop_here ys) q)
IsSubsequence-append (both x p) q = both x (IsSubsequence-append p q)
IsSubsequence-append (skip y p) q = skip y (IsSubsequence-append p q)

pub IsSubsequence-more : (xs ys vs : List Text) → IsSubsequence xs ys → IsSubsequence xs (ys ++ vs)
IsSubsequence-more xs ys vs p =
    subst (λ us. IsSubsequence us (ys ++ vs)) (append-nil xs)
      (IsSubsequence-append p (stop_here vs))

pub IsSubsequence-after : (xs ys vs : List Text) → IsSubsequence xs vs → IsSubsequence xs (ys ++ vs)
IsSubsequence-after xs ys vs p = IsSubsequence-append (stop_here ys) p

pub sent_to-append :
    (fd : ℕ) (xs ys : Sends) → sent_to fd (xs ++ ys) ≡ sent_to fd xs ++ sent_to fd ys
unfolding sent_to
sent_to-append fd xs ys =
    ap (map (λ p. p.1)) (keep-append (λ p. fd == p.0) xs ys)
    ∙ map-append (λ p. p.1) (keep (λ p. fd == p.0) xs) (keep (λ p. fd == p.0) ys)

-- What is sent to every client reaches each of them.
pub sent_to-all :
    (fd : ℕ) (packet : Text) (clients : List ℕ)
    → is_member fd clients ≡ true
    → IsSubsequence (packet ∷ []) (sent_to fd (map (λ g. (g, packet)) clients))
unfolding sent_to keep is_member
sent_to-all fd packet [] h = absurd (ground arith)
sent_to-all fd packet (g ∷ gs) h = elim (Bool-cases (fd == g)) [
  | inl t ↦ rw t (both packet (stop_here _))
  | inr f ↦ rw f (sent_to-all fd packet gs (ground arith))
]

pub sent_to-history :
    (fd : ℕ) (ms : List Message) → sent_to fd (map (λ m. (fd, serialize m)) ms) ≡ map serialize ms
unfolding sent_to keep
sent_to-history fd [] = refl
sent_to-history fd (m ∷ ms) =
    let hit : (fd == fd) ≡ true = ground arith in
    rw hit (ap (λ t. serialize m ∷ t) (sent_to-history fd ms))

pub is_member-client_insert :
    (fd g : ℕ) (s : List ℕ) → is_member g (client_insert fd s) ≡ (g == fd || is_member g s)
unfolding client_insert is_member
is_member-client_insert fd g [] = refl
is_member-client_insert fd g (h ∷ s) = ground (arith, is_member-client_insert fd g s)

pub is_member-client_erase :
    (fd g : ℕ) (s : List ℕ) → is_member g (client_erase fd s) ≡ true → is_member g s ≡ true
unfolding client_erase is_member
is_member-client_erase fd g [] h = h
is_member-client_erase fd g (k ∷ s) h = ground (arith, is_member-client_erase fd g s)

pub lookup-without_client :
    (fd : ℕ) (name : Text) (cs : List (Text × Channel)) (c : Channel)
    → lookup name (without_client fd cs) ≡ some c
    → (d : Channel) × (lookup name cs ≡ some d) × (c ≡ remove_client fd d)
unfolding lookup without_client
lookup-without_client fd name [] c h = absurd (ground arith)
lookup-without_client fd name ((key, d) ∷ cs) c h = elim (Bool-cases (text_eq key name)) [
  | inl t ↦ (d, ground arith, ground arith)
  | inr f ↦
      let (e, found, same) = lookup-without_client fd name cs c (ground arith) in
      (e, ground arith, same)
]

-- What a client of a channel has been sent when it knew the history before a broadcast.
pub broadcast_informs :
    (m : Message) (c : Channel) (fd : ℕ) (sends : Sends)
    → is_member fd c.clients ≡ true
    → IsSubsequence (map serialize c.history) (sent_to fd sends)
    → IsSubsequence
        (map serialize (broadcast m c).0.history)
        (sent_to fd (sends ++ (broadcast m c).1))
unfolding broadcast
broadcast_informs m c fd sends h p =
    let more = map (λ g. (g, serialize m)) c.clients in
    let before = map serialize c.history in
    subst
      (λ ys.
        IsSubsequence (map serialize (if should_store m then c.history ++ m ∷ [] else c.history))
          ys)
      (sym (sent_to-append fd sends more))
      (elim (Bool-cases (should_store m)) [
        | inl t ↦ rw t (
            subst (λ xs. IsSubsequence xs (sent_to fd sends ++ sent_to fd more))
              (sym (map-append serialize c.history (m ∷ [])))
              (IsSubsequence-append p (sent_to-all fd (serialize m) c.clients h)))
        | inr f ↦ rw f (IsSubsequence-more before (sent_to fd sends) (sent_to fd more) p)
      ])
