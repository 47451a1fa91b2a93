-- ===== src/NoGo/Wire.antt =====
-- The IRC form of a zone in orchestrator/nogo_zone_manager.cpp: serialize_zone, deserialize_zone.
use ida_swarm.Base.{
  ℕ, ◌≤◌, ◌≡◌, ◌≢◌, refl, ap, ◌∙◌, List, [], ◌∷◌, ◌++◌, append_assoc, append-nil, Option, none,
  some, true, false, All, Text, codes, text_eq, text_eq_refl, ◌==◌, if◌then◌else◌, arith,
}
use ida_swarm.Base.Numbers.{stoull, format_hex}
use ida_swarm.Base.Numbers.RoundTrip.{stoull-format_hex, format_hex-le, stoull-lt}
use ida_swarm.NoGo.{NoGoZone, NoGoZoneType, temp_segment, code_cave}
use ida_swarm.NoGo.Search.{IsWordZone}

type_text : NoGoZoneType → Text
type_text temp_segment = codes "SEGMENT"
type_text code_cave = codes "CAVE"

-- NOGO|TYPE|agent_id|start_addr|end_addr
unfoldable pub serialize_zone : NoGoZone → Text
unfolding type_text
serialize_zone z =
    codes "NOGO|"
    ++ (type_text z.zone_type
        ++ (codes "|"
            ++ (z.agent_id
                ++ (codes "|"
                    ++ (format_hex z.start_address ++ (codes "|" ++ format_hex z.end_address))))))

-- The loop of std::getline on '|'; a text that ends with a '|' has no empty token behind it.
unfoldable pub tokenize : Text → Text → List Text
tokenize current [] = elim current [ [] ↦ [] | c ∷ s ↦ (c ∷ s) ∷ [] ]
tokenize current (c ∷ s) = elim (c == b'|') [
  | true ↦ current ∷ tokenize [] s
  | false ↦ tokenize (current ++ c ∷ []) s
]

type_of : Text → Option NoGoZoneType
type_of t =
    if text_eq t (codes "SEGMENT")
    then some temp_segment
    else if text_eq t (codes "CAVE")
    then some code_cave
    else none

infixl 5 ◌>>=◌
abbrev ◌>>=◌ : {A B : Type 0} → Option A → (A → Option B) → Option B
none >>= f = none
some a >>= f = f a

-- `now` is the reading of the clock. A conversion that throws gives `nullopt` like a bad form.
from_tokens : ℕ → List Text → Option NoGoZone
unfolding type_of
from_tokens now (tag ∷ kind ∷ agent ∷ from ∷ to ∷ []) =
    if text_eq tag (codes "NOGO")
    then (do
      t ← type_of kind
      start ← stoull from
      end ← stoull to
      some (record {
        start_address = start;
        end_address = end;
        agent_id = agent;
        zone_type = t;
        timestamp = now;
      }))
    else none
from_tokens now _ = none

unfoldable pub deserialize_zone : ℕ → Text → Option NoGoZone
unfolding from_tokens
deserialize_zone now data_text = from_tokens now (tokenize [] data_text)

abbrev pub NoBar : Text → Type 0
NoBar = All (λ c. c ≢ b'|')

tokenize-append :
    (current t rest : Text)
    → NoBar t
    → tokenize current (t ++ b'|' ∷ rest) ≡ (current ++ t) ∷ tokenize [] rest
unfolding tokenize
tokenize-append current [] rest h = rw append-nil
tokenize-append current (c ∷ t) rest h =
    ground
      (arith, tokenize-append (current ++ c ∷ []) t rest h.1, append_assoc current (c ∷ []) t, h.0)

tokenize_last :
    (current t : Text) (c : ℕ) → NoBar t → tokenize (c ∷ current) t ≡ ((c ∷ current) ++ t) ∷ []
unfolding tokenize
tokenize_last current [] c h = rw append-nil
tokenize_last current (d ∷ t) c h =
    ground (arith, tokenize_last (current ++ d ∷ []) t c h.1, append_assoc current (d ∷ []) t, h.0)

All-NoBar : (t : Text) → All (λ c. c ≤ b'z') t → NoBar t
All-NoBar [] h = tt
All-NoBar (c ∷ t) h = (omega arith, All-NoBar t h.1)

type_text-NoBar : (t : NoGoZoneType) → NoBar (type_text t)
unfolding type_text
type_text-NoBar temp_segment = All-NoBar (codes "SEGMENT") (omega arith)
type_text-NoBar code_cave = All-NoBar (codes "CAVE") (omega arith)

type_of-type_text : (t : NoGoZoneType) → type_of (type_text t) ≡ some t
unfolding type_of type_text text_eq
type_of-type_text temp_segment = refl
type_of-type_text code_cave = refl

hex-NoBar : (n : ℕ) → NoBar (format_hex n)
hex-NoBar n = All-NoBar (format_hex n) (format_hex-le n)

tokenize-hex : (n : ℕ) → tokenize [] (format_hex n) ≡ format_hex n ∷ []
tokenize-hex n = unfold format_hex tokenize in tokenize_last [] _ b'0' (hex-NoBar n).1

tokens_of_zone :
    (z : NoGoZone)
    → NoBar z.agent_id
    → tokenize [] (serialize_zone z)
      ≡ codes "NOGO"
        ∷ type_text z.zone_type
        ∷ z.agent_id
        ∷ format_hex z.start_address
        ∷ format_hex z.end_address
        ∷ []
unfolding serialize_zone
tokens_of_zone z h =
    tokenize-append [] (codes "NOGO") _ (All-NoBar (codes "NOGO") (omega arith))
    ∙ ap (◌∷◌ (codes "NOGO")) (
        tokenize-append [] (type_text z.zone_type) _ (type_text-NoBar z.zone_type)
        ∙ ap (◌∷◌ (type_text z.zone_type)) (
            tokenize-append [] z.agent_id _ h
            ∙ ap (◌∷◌ z.agent_id) (
                tokenize-append [] (format_hex z.start_address) _ (hex-NoBar z.start_address)
                ∙ ap (◌∷◌ (format_hex z.start_address)) (tokenize-hex z.end_address))))

-- A zone with word addresses, whose agent's name has no '|', comes through the broadcast as it
-- was, but for the time, which is the receiver's.
pub deserialize-serialize :
    (z : NoGoZone) (now : ℕ)
    → IsWordZone z
    → NoBar z.agent_id
    → deserialize_zone now (serialize_zone z) ≡ some (record z { timestamp = now })
unfolding deserialize_zone
deserialize-serialize z now w h = rw (
  tokens_of_zone z h,
  text_eq_refl (codes "NOGO"),
  type_of-type_text z.zone_type,
  stoull-format_hex z.start_address w.0,
  stoull-format_hex z.end_address w.1,
)

from_tokens-IsWordZone :
    (now : ℕ) (ts : List Text) (z : NoGoZone) → from_tokens now ts ≡ some z → IsWordZone z
unfolding from_tokens
from_tokens-IsWordZone now (tag ∷ kind ∷ agent ∷ from ∷ to ∷ []) z h =
    ground (arith, stoull-lt from z.start_address, stoull-lt to z.end_address)
from_tokens-IsWordZone now _ z h = cc

-- Whatever text arrives, a zone read from it has word addresses.
pub deserialize_zone-IsWordZone :
    (now : ℕ) (t : Text) (z : NoGoZone) → deserialize_zone now t ≡ some z → IsWordZone z
unfolding deserialize_zone
deserialize_zone-IsWordZone now t z h = from_tokens-IsWordZone now (tokenize [] t) z h
