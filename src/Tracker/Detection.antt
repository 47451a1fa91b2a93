-- ===== src/Tracker/Detection.antt =====
-- A recorded write is seen by the next agent that checks: record_tool_call and check_for_conflicts
-- of orchestrator/tool_call_tracker.cpp together, clear_agent_data, and the statistics.
use ida_swarm.Base.{
  ℕ, suc, ◌%◌, ◌+◌, ◌≡◌, ◌≢◌, inl, inr, refl, ap, ◌∙◌, List, [], ◌∷◌, ◌++◌, Option, none, some,
  Bool, true, false, not, Text, text_eq, text_eq_iff, keep, length, Any, Any-keep, Any-map,
  Any-append_right, arith, Bool-cases, Option-cases,
}
use ida_swarm.Base.External.{JsonApi, RowSteps, NeverFails}
use ida_swarm.Tracker.{
  ToolCall, ToolConflict, AgentToolStats, Row, Tracker, Answers, new_row, is_write_tool, int_word,
  manual_flag, insert_row, bind_from_marker, bind_from_dump, record_tool_call, row_to_tool_call,
}
use ida_swarm.Tracker.Queries.{
  check_for_conflicts, clear_agent_data, count_conflicts, written_addresses, get_agent_stats,
  get_agent_tool_calls,
}
use ida_swarm.Tracker.Conflicts.{SameTarget, Conflicting, check_for_conflicts_iff}

abbrev pub appended : Row → Tracker → Tracker
appended row t = record t { rows = t.rows ++ row ∷ []; next_id = suc t.next_id }

module _ (J : JsonApi) where
  inserted :
      (a : Answers) (row : Row) (t t' : Tracker)
      → insert_row a row t ≡ (t', true)
      → t' ≡ appended row t
  unfolding insert_row
  inserted a row t t' h = ground arith

  recorded_from_marker :
      (a : Answers) (now : ℕ) (agent tool : Text) (address : ℕ) (params : Text) (o : Option Bool)
      (t t' : Tracker)
      → bind_from_marker J a now agent tool address params o t ≡ some (t', true)
      → (manual : Bool) × (t' ≡ appended (new_row now agent tool address params manual t) t)
  unfolding bind_from_marker
  recorded_from_marker a now agent tool address params none t t' h = cc
  recorded_from_marker a now agent tool address params (some manual) t t' h =
      (manual, ground (arith, inserted a (new_row now agent tool address params manual t) t t'))

  recorded_from_dump :
      (a : Answers) (now : ℕ) (agent tool : Text) (address : ℕ) (p : J.Json) (o : Option Text)
      (t t' : Tracker)
      → bind_from_dump J a now agent tool address p o t ≡ some (t', true)
      → (params : Text) × (manual : Bool) × (o ≡ some params)
        × (t' ≡ appended (new_row now agent tool address params manual t) t)
  unfolding bind_from_dump
  recorded_from_dump a now agent tool address p none t t' h = cc
  recorded_from_dump a now agent tool address p (some params) t t' h =
      let (manual, e) =
        recorded_from_marker a now agent tool address params (manual_flag J p) t t'
          (ground arith) in
      (params, manual, refl, e)

  -- A successful record adds one row, at the end, with the dump of the parameters.
  pub recorded_tracker :
      (a : Answers) (now : ℕ) (agent tool : Text) (address : ℕ) (p : J.Json) (t t' : Tracker)
      → record_tool_call J a now agent tool address p t ≡ some (t', true)
      → (params : Text) × (manual : Bool) × (J.dump p ≡ some params)
        × (t' ≡ appended (new_row now agent tool address params manual t) t)
  unfolding record_tool_call
  recorded_tracker a now agent tool address p t t' h =
      recorded_from_dump a now agent tool address p (J.dump p) t t' (ground arith)

  pub recorded :
      (a : Answers) (now : ℕ) (agent tool : Text) (address : ℕ) (p : J.Json) (t t' : Tracker)
      → record_tool_call J a now agent tool address p t ≡ some (t', true)
      → (params : Text) × (manual : Bool) × (J.dump p ≡ some params)
        × (t'.rows ≡ t.rows ++ new_row now agent tool address params manual t ∷ [])
  recorded a now agent tool address p t t' h =
      let (params, manual, d, e) = recorded_tracker a now agent tool address p t t' h in
      (params, manual, d, ap (λ u. u.rows) e)

module _ (J : JsonApi) where
  not_inserted :
      (a : Answers) (row : Row) (t t' : Tracker) → insert_row a row t ≡ (t', false) → t ≡ t'
  unfolding insert_row
  not_inserted a row t t' h = ground arith

  not_bound_from_marker :
      (a : Answers) (now : ℕ) (agent tool : Text) (address : ℕ) (params : Text) (o : Option Bool)
      (t t' : Tracker)
      → bind_from_marker J a now agent tool address params o t ≡ some (t', false)
      → t ≡ t'
  unfolding bind_from_marker
  not_bound_from_marker a now agent tool address params none t t' h = cc
  not_bound_from_marker a now agent tool address params (some manual) t t' h =
      ground (arith, not_inserted a (new_row now agent tool address params manual t) t t')

  not_bound_from_dump :
      (a : Answers) (now : ℕ) (agent tool : Text) (address : ℕ) (p : J.Json) (o : Option Text)
      (t t' : Tracker)
      → bind_from_dump J a now agent tool address p o t ≡ some (t', false)
      → t ≡ t'
  unfolding bind_from_dump
  not_bound_from_dump a now agent tool address p none t t' h = cc
  not_bound_from_dump a now agent tool address p (some params) t t' h =
      ground (arith, not_bound_from_marker a now agent tool address params (manual_flag J p) t t')

  -- A record that reports failure has left the tracker and its table as they were.
  pub not_recorded :
      (a : Answers) (now : ℕ) (agent tool : Text) (address : ℕ) (p : J.Json) (t t' : Tracker)
      → record_tool_call J a now agent tool address p t ≡ some (t', false)
      → t ≡ t'
  unfolding record_tool_call
  not_recorded a now agent tool address p t t' h =
      ground (arith, not_bound_from_dump a now agent tool address p (J.dump p) t t')

row_parsed :
    (J : JsonApi) (r : Row) (p : J.Json)
    → J.parse r.parameters ≡ some p
    → row_to_tool_call J r
      ≡ some (record {
        id = r.id % int_word;
        agent_id = r.agent_id;
        tool_name = r.tool_name;
        address = r.address;
        parameters = p;
        timestamp = r.timestamp;
        is_write_operation = r.is_write;
      })
unfolding row_to_tool_call
row_parsed J r p h = ground arith

row_agent :
    (J : JsonApi) (r : Row) (c : ToolCall J)
    → row_to_tool_call J r ≡ some c
    → c.agent_id ≡ r.agent_id
unfolding row_to_tool_call
row_agent J r c h = ground arith

not_Any : {A : Type 0} (P : A → Type 0) (xs : List A) → ((x : A) → ¬ P x) → ¬ Any P xs
not_Any P [] h a = a
not_Any P (x ∷ xs) h (inl k) = h x k
not_Any P (x ∷ xs) h (inr a) = not_Any P xs h a

length-keep :
    {A : Type 0} (p : A → Bool) (xs : List A)
    → length xs ≡ length (keep p xs) + length (keep (λ x. not (p x)) xs)
unfolding keep
length-keep p [] = omega arith
length-keep p (x ∷ xs) = ground (arith, length-keep p xs)

module _ (J : JsonApi) (O : RowSteps Row) where
  -- Where no step of the query fails: after an agent has recorded a write with success, a check that another agent makes for the same
  -- tool at the same address (and on the same variable or type, for the tools about one), and that
  -- returns, reports a conflict with that agent's call and its very parameters.
  pub check-record :
      (a : Answers) (now later : ℕ) (agent other tool : Text) (address : ℕ) (p q : J.Json)
      (t t' : Tracker) (cs : List (ToolConflict J))
      → NeverFails O
      → record_tool_call J a now agent tool address p t ≡ some (t', true)
      → is_write_tool tool ≡ true
      → agent ≢ other
      → SameTarget J tool q p
      → check_for_conflicts J O later other tool address q t' ≡ some cs
      → Any (λ c. (c.first_call.agent_id ≡ agent) × (c.first_call.parameters ≡ p)) cs
  check-record a now later agent other tool address p q t t' cs never h w differ target e =
      let (params, manual, dumped, rows) = recorded J a now agent tool address p t t' h in
      let call : ToolCall J = record {
        id = t.next_id % int_word;
        agent_id = agent;
        tool_name = tool;
        address = address;
        parameters = p;
        timestamp = now;
        is_write_operation = is_write_tool tool;
      } in
      let parsed = J.parse-dump p params dumped in
      let there : Any (Conflicting J other tool address q call) t'.rows = rw rows (
        Any-append_right (Conflicting J other tool address q call) t.rows
          (new_row now agent tool address params manual t ∷ [])
          (inl (row_parsed J _ p parsed, refl, w, differ, refl, target))) in
      Any-map (λ c same. (ground arith, ground arith)) cs
        ((check_for_conflicts_iff J O later other tool address q t' call cs never w e).1 there)

  -- Where no step fails: once an agent's data is cleared, no check reports a call of that agent.
  pub check-clear :
      (now : ℕ) (agent other tool : Text) (address : ℕ) (p : J.Json) (t : Tracker)
      (cs : List (ToolConflict J)) (call : ToolCall J)
      → NeverFails O
      → check_for_conflicts J O now other tool address p (clear_agent_data true agent t).0 ≡ some cs
      → call.agent_id ≡ agent
      → ¬ Any (λ c. c.first_call ≡ call) cs
  unfolding clear_agent_data
  check-clear now agent other tool address p t cs call never e mine reported =
      elim (Bool-cases (is_write_tool tool)) [
        | inl w ↦
            let t' = (clear_agent_data true agent t).0 in
            not_Any _ t.rows
              (λ r (kept, (parsed, at, written, foreign, named, target)).
                ground (arith, text_eq_iff r.agent_id agent, row_agent J r call parsed))
              ((Any-keep (Conflicting J other tool address p call)
                  (λ r. not (text_eq r.agent_id agent)) t.rows).0
                ((check_for_conflicts_iff J O now other tool address p t' call cs never w e).0
                  reported))
        | inr no_write ↦
            let nothing : cs ≡ [] = unfold check_for_conflicts in ground arith in
            rw nothing at reported
      ]

  no_conflicts :
      (now : ℕ) (empty : J.Json) (agent : Text) (t : Tracker) (s : List ℕ) (n : ℕ)
      → count_conflicts J O now empty agent t s n ≡ some n
  unfolding count_conflicts check_for_conflicts is_write_tool text_eq
  no_conflicts now empty agent t [] n = refl
  no_conflicts now empty agent t (a ∷ s) n =
      no_conflicts now empty agent t s (n + 0) ∙ ap some (omega arith)

  -- The statistics count every call once, as a write or as a read, and their number of conflicts is
  -- always 0: they ask for the conflicts of a tool named "check", which is no write tool.
  pub get_agent_stats_lem :
      (now : ℕ) (empty : J.Json) (agent : Text) (t : Tracker) (stats : AgentToolStats)
      → get_agent_stats J O now empty agent t ≡ some stats
      → (stats.conflicts ≡ 0) × (stats.total_calls ≡ stats.write_calls + stats.read_calls)
  unfolding get_agent_stats
  get_agent_stats_lem now empty agent t stats h =
      elim (Option-cases (get_agent_tool_calls J O agent t)) [
        | inl e ↦ absurd (ground arith)
        | inr (calls, e) ↦ ground (
          arith,
          no_conflicts now empty agent t (written_addresses J calls []) 0,
          length-keep (λ (c : ToolCall J). c.is_write_operation) calls,
        )
      ]
