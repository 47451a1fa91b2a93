-- ===== src/Auto/Retries.antt =====
-- How often orchestrator/auto_decompile_manager.cpp retries a function before it gives it up.
use ida_swarm.Base.{ℕ, ◌≤◌, ◌≡◌, ◌≢◌, none, true, All}
use ida_swarm.Auto.{Host, Manager, is_in, max_function_retries}

module _ (H : Host) where
  -- A function with an agent has its priority saved, no function is retried more than three times,
  -- and one that failed was retried three times.
  record IsLimited (m : Manager H) : Type 0 where
    saved_all : All (λ e. m.function_priorities e.1 ≢ none) m.agent_to_function
    few : (x : ℕ) → m.function_retry_count x ≤ max_function_retries
    failed_late :
        (x : ℕ)
        → is_in x m.failed_functions ≡ true
        → m.function_retry_count x ≡ max_function_retries
