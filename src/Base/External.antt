-- ===== src/Base/External.antt =====
-- The libraries that the source calls and does not hold: JSON values and database tables.
use Prim.Native.Nat.{ℕ, zero, suc}
use mathlib.Core.Path.{◌≡◌}
use mathlib.Core.Logic.{◌↔◌}
use mathlib.Core.Bool.{Bool}
use mathlib.Core.Option.{Option, none, some}
use mathlib.Core.List.{List, [], ◌∷◌}
use ida_swarm.Base.Lists.{Any}
use ida_swarm.Base.Bytes.{Text}

-- What a parameter holds: nothing, a string, a number (as `get<ea_t>()` gives it), or another value.
pub data Field : Type 0 where
  missing : Field
  text : Text → Field
  number : ℕ → Field
  other : Field

-- nlohmann::json; `none` where a call throws.
pub record JsonApi : Type 1 where
  pub Json : Type 0
  -- j.value(key, default) at type std::string
  pub value_string : Json → Text → Text → Option Text
  -- j.value(key, default) at type bool
  pub value_bool : Json → Text → Bool → Option Bool
  pub contains : Json → Text → Bool
  -- j[key] as a bool
  pub get_bool : Json → Text → Option Bool
  -- j[key] as a std::string
  pub get_string : Json → Text → Option Text
  pub field : Json → Text → Field
  pub dump : Json → Option Text
  pub parse : Text → Option Json
  -- Parsing what was dumped gives the value back.
  pub parse-dump : (j : Json) (t : Text) → dump j ≡ some t → parse t ≡ some j

-- What `ORDER BY timestamp` does to the rows that a query selects, and a walk over an unordered map to
-- its entries: it keeps every one and adds none.
pub record RowOrder (A : Type 0) : Type 1 where
  pub ordered : List A → List A
  pub Any-ordered : (P : A → Type 0) (rows : List A) → Any P (ordered rows) ↔ Any P rows

-- How SQLite answers the steps of a query: the order of the rows that it selects, and after how many of
-- them a step fails, where one does. A loop over the steps ends there like at the last row.
pub record RowSteps (A : Type 0) : Type 1 where
  pub order : RowOrder A
  pub fails_after : List A → Option ℕ

unfoldable pub first_rows : {A : Type 0} → ℕ → List A → List A
first_rows zero rows = []
first_rows (suc n) [] = []
first_rows (suc n) (r ∷ rows) = r ∷ first_rows n rows

unfoldable pub stepped : {A : Type 0} → Option ℕ → List A → List A
unfolding first_rows
stepped none rows = rows
stepped (some n) rows = first_rows n rows

unfoldable pub selected : {A : Type 0} → RowSteps A → List A → List A
unfolding stepped
selected O rows = stepped (O.fails_after rows) (O.order.ordered rows)

abbrev pub NeverFails : {A : Type 0} → RowSteps A → Type 0
NeverFails O = (rows : _) → O.fails_after rows ≡ none

-- Where no step fails, a loop sees every row that is selected.
pub Any-selected :
    {A : Type 0} (O : RowSteps A)
    → NeverFails O
    → (P : A → Type 0) (rows : List A) → Any P (selected O rows) ↔ Any P rows
unfolding selected stepped
Any-selected O never P rows = rw (never rows) (O.order.Any-ordered P rows)
