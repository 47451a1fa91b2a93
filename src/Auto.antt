-- ===== src/Auto.antt =====
-- orchestrator/auto_decompile_manager.h and .cpp: the manager that has every function of a binary
-- analysed by agents, a bounded number at a time, each function again after a crash up to a limit.
-- What it asks of the orchestrator, of IDA and of the prioritizer is the record `Host`.
pub mod Ops
pub mod Steps
pub mod Runs
pub mod Tracked
pub mod Accounted
pub mod Live
pub mod Progress
pub mod Load
pub mod Returns
pub mod Retries
pub mod Counters
pub mod Parallel
use ida_swarm.Base.{
  ℕ, sub64, zero, suc, ◌+◌, ◌-◌, ◌%◌, ◌≡◌, ◌≢◌, List, [], ◌∷◌, ◌++◌, map, Option, none, some, Bool,
  true, false, not, ◌&&◌, ◌||◌, String, Text, codes, leb, ltb, text_eq, length, word, ◌==◌,
  if◌then◌else◌,
}
use ida_swarm.Base.Numbers.{print_number}

-- func_t: where it starts, and the tests of its flags and its segment.
pub record Function : Type 0 where
  pub start_ea : ℕ
  pub is_lib : Bool
  pub is_thunk : Bool
  pub is_tail : Bool
  pub is_outline : Bool
  pub is_hidden : Bool
  pub is_extern : Bool

-- The sum of a measure over a list.
unfoldable pub weigh {ℓ} : {A : Type ℓ} → (A → ℕ) → List A → ℕ
weigh f [] = 0
weigh f (x ∷ xs) = f x + weigh f xs

pub record Host : Type 1 where
  -- The state of the orchestrator, of its agents and of IDA.
  pub World : Type 0
  -- FunctionPriority
  pub Priority : Type 0
  pub address : Priority → ℕ
  pub prioritize_functions : List ℕ → List Priority
  -- Each function gets a priority.
  pub prioritize_keeps :
      (f : ℕ → ℕ) (xs : List ℕ) → weigh (λ p. f (address p)) (prioritize_functions xs) ≡ weigh f xs
  -- getn_func over the database; `none` where it gives nothing
  pub functions : World → List (Option Function)
  -- get_name
  pub get_name : World → ℕ → Option Text
  pub max_parallel : ℕ
  -- Orchestrator::spawn_agent_async with a task and a context; `none` where it gives an error
  pub spawn_agent_async : Text → Text → World → World × Option Text
  -- The process of an agent that the orchestrator knows has ended, and no result of it came.
  pub has_crashed : World → Text → Bool
  -- The agent has been named by a spawn.
  pub IsNamed : World → Text → Type 0
  pub spawn_fresh :
      (task context : Text) (w : World) (a : Text)
      → (spawn_agent_async task context w).1 ≡ some a
      → ¬ IsNamed w a
  pub spawn-IsNamed :
      (task context : Text) (w : World) (a : Text)
      → (spawn_agent_async task context w).1 ≡ some a
      → IsNamed (spawn_agent_async task context w).0 a
  pub spawn_keeps :
      (task context : Text) (w : World) (a : Text)
      → IsNamed w a
      → IsNamed (spawn_agent_async task context w).0 a

-- The percentage and the times are not modelled.
pub record AnalysisProgress : Type 0 where
  pub total_functions : ℕ
  pub completed_functions : ℕ
  pub failed_functions : ℕ
  pub active_functions : ℕ
  pub pending_functions : ℕ
  pub active_agents : List (Text × ℕ)
  pub completed_function_addresses : List ℕ

abbrev pub no_progress : AnalysisProgress
no_progress = record {
  total_functions = 0;
  completed_functions = 0;
  failed_functions = 0;
  active_functions = 0;
  pending_functions = 0;
  active_agents = [];
  completed_function_addresses = [];
}

-- The events of the bus, by what sets them off.
pub data Event : Type 0 where
  nothing_to_do : Event
  started : (total : ℕ) → Event
  progress_made : AnalysisProgress → (completed_function : Option ℕ) → Event
  retried : (agent : Text) → (function retry_attempt : ℕ) → Event
  given_up : (agent : Text) → (function retry_count : ℕ) → Event
  finished : (total completed : ℕ) → Event
  stopped : (total completed : ℕ) → Event

pub record Manager (H : Host) : Type 0 where
  pub active : Bool
  pub pending_functions : List (H.Priority)
  pub progress : AnalysisProgress
  pub completed_functions : List ℕ
  pub agent_to_function : List (Text × ℕ)
  pub function_priorities : ℕ → Option (H.Priority)
  pub function_retry_count : ℕ → ℕ
  pub failed_functions : List ℕ
  pub world : H.World
  -- newest first
  pub events : List Event

abbrev pub max_function_retries : ℕ
max_function_retries = 3

unfoldable pub update : AnalysisProgress → AnalysisProgress
unfolding sub64
update p = record p {
  active_functions = length p.active_agents;
  pending_functions =
      sub64 (sub64 (sub64 p.total_functions p.completed_functions) p.failed_functions)
        (length p.active_agents);
}

-- std::set<ea_t>
unfoldable pub is_in : ℕ → List ℕ → Bool
is_in x [] = false
is_in x (y ∷ ys) = y == x || is_in x ys

unfoldable pub set_insert : ℕ → List ℕ → List ℕ
set_insert x s = if is_in x s then s else x ∷ s

-- The order of std::string.
unfoldable pub text_ltb : Text → Text → Bool
text_ltb s [] = false
text_ltb [] (d ∷ t) = true
text_ltb (c ∷ s) (d ∷ t) = if c == d then text_ltb s t else ltb c d

-- The map from agents to functions, in the order of its keys, which are unique: find, m[k] = v, and
-- the erasing of a key.
unfoldable pub function_of : Text → List (Text × ℕ) → Option ℕ
function_of a [] = none
function_of a ((b, x) ∷ m) = if text_eq b a then some x else function_of a m

unfoldable pub assign : Text → ℕ → List (Text × ℕ) → List (Text × ℕ)
unfolding text_ltb
assign a x [] = (a, x) ∷ []
assign a x ((b, y) ∷ m) =
    let rest = (b, y) ∷ assign a x m in
    if text_eq b a then (b, x) ∷ m else if text_ltb a b then (a, x) ∷ (b, y) ∷ m else rest

unfoldable pub forget : Text → List (Text × ℕ) → List (Text × ℕ)
forget a [] = []
forget a ((b, y) ∷ m) = if text_eq b a then m else (b, y) ∷ forget a m

abbrev pub set_at {ℓ} : {A : Type ℓ} → ℕ → A → (ℕ → A) → ℕ → A
set_at x v f y = if x == y then v else f y

unfoldable pub is_analysed : Function → Bool
is_analysed f =
    not (f.is_lib || f.is_thunk || f.is_tail || f.is_outline || f.is_hidden || f.is_extern)

unfoldable pub enumerate_non_library_functions : List (Option Function) → List ℕ
unfolding is_analysed
enumerate_non_library_functions [] = []
enumerate_non_library_functions (none ∷ fs) = enumerate_non_library_functions fs
enumerate_non_library_functions (some f ∷ fs) =
    let rest = enumerate_non_library_functions fs in
    if is_analysed f then f.start_ea ∷ rest else rest

upper_case : ℕ → ℕ
upper_case c = if leb b'a' c && leb c b'z' then c - 32 else c

-- std::hex << std::uppercase
unfoldable pub upper_hex : ℕ → Text
unfolding upper_case
upper_hex n = map upper_case (print_number 16 n)

unfoldable pub display_name : ℕ → Option Text → Text
unfolding upper_hex
display_name x none = codes "sub_" ++ upper_hex x
display_name x (some name) = name

abbrev line_end : Text
line_end = 10 ∷ []

-- A line of a prompt, and a line with an empty one after it.
abbrev line : String → Text → Text
line s t = codes s ++ (line_end ++ t)

-- The text after the head of the prompt.
abbrev prompt_tail : Text
prompt_tail =
    line
      "Your mission: Perform a COMPLETE reversal of this function to achieve source-level decompilation quality."
      (line "" (
        line "REQUIREMENTS:" (
          line "1. Set ALL local variable names meaningfully" (
            line "2. Set ALL local variable types precisely" (
              line "3. Set function name (if not already well-named)" (
                line "4. Set function prototype with proper parameter names and types" (
                  line "5. Add comments explaining non-obvious logic" (
                    line "6. Apply or create struct/enum types where needed" (
                      line "" (
                        line "CRITICAL: Before creating any new types:" (
                          line
                            "- Use search_local_types() to check if another agent already created similar types"
                            (line "- Reuse existing types whenever possible for consistency" (
                              line "- Only create new types if no suitable type exists" (
                                line "" (
                                  line "QUALITY STANDARD:" (
                                    line
                                      "The decompilation must look like well-written source code. Variable names should reveal intent, types should be precise, and control flow should be clear."
                                      (line "" (
                                        line
                                          "Explore the function thoroughly, understand its purpose in the broader program context, and make it perfect."
                                          (line "" (
                                            codes
                                              "When satisfied with the reversal quality, your work will be automatically merged back to the main database."))))))))))))))))))))

unfoldable pub generate_function_analysis_prompt : ℕ → Text → Text
unfolding upper_hex
generate_function_analysis_prompt x name = line "COMPREHENSIVE FUNCTION REVERSAL" (
    line "" (
      codes "Target Function: 0x"
      ++ (upper_hex x ++ (codes " (" ++ (name ++ line ")" (line "" prompt_tail))))))
