-- ===== src/Tracker/Published.antt =====
-- What the monitor of orchestrator/tool_call_tracker.cpp publishes.
use ida_swarm.Base.{ℕ, ◌+◌, ◌≡◌, ◌≤◌, ◌<◌, List, [], ◌∷◌, ◌++◌, map, some, true, All}
use ida_swarm.Base.External.{JsonApi}
use ida_swarm.Tracker.{ToolCall, Row, Tracker, read_rows}
use ida_swarm.Tracker.Monitor.{ToolEvent, event_of}

module _ (J : JsonApi) where
  -- Rows whose ids go up from one bound to below another.
  abbrev Ascends : ℕ → List Row → ℕ → Type 0
  Ascends last [] next = last < next
  Ascends last (r ∷ rs) next = (last < r.id) × Ascends r.id rs next

  abbrev Parses : Row → Type 0
  Parses r = (p : J.Json) × (J.parse r.parameters ≡ some p)

  -- The ids are ints that are not negative.
  abbrev IsInt : ℕ → Type 0
  IsInt next = next ≤ 0x80000000

  -- The rows split into those that were published and those that were not; so many more may come.
  abbrev Inv : ℕ → Tracker × List (ToolEvent J) → Type 0
  Inv more (t, es) =
      (olds : List Row) × (news : List Row) × (calls : List (ToolCall J)) × (t.rows ≡ olds ++ news)
      × All (λ r. r.id ≤ t.last_seen_id) olds
      × Ascends t.last_seen_id news t.next_id
      × All Parses news
      × (read_rows J olds ≡ some calls)
      × (es ≡ map (event_of J) calls)
      × (t.db_open ≡ true)
      × IsInt (t.next_id + more)

  -- Everything in the table was published, in order and once.
  abbrev pub IsPublished : Tracker × List (ToolEvent J) → Type 0
  IsPublished (t, es) =
      (calls : List (ToolCall J)) × (read_rows J t.rows ≡ some calls)
      × (es ≡ map (event_of J) calls)
