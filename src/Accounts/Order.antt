-- ===== src/Accounts/Order.antt =====
-- The order of the accounts of sdk/auth/oauth_account_pool.cpp, and the choice of the best one.
use ida_swarm.Base.{
  ℕ, ◌+◌, ◌==◌, ◌≡◌, ◌↔◌, ◌≤◌, refl, ap, inl, inr, List, [], ◌∷◌, none, some, true, false, Text,
  text_eq, All, Any, Any-map, erase, arith, Option-cases, Bool-cases,
}
use ida_swarm.Accounts.{
  Doubles, Sorting, Credentials, Account, Pool, IsSorted, int_zero, find_account, update_account,
  erase_account, is_account_available, first_available,
}
use ida_swarm.Accounts.Disk.{Document, from_json, set_limit, version_of, accounts_of, read_entries}
use ida_swarm.Accounts.Ops.{
  add_account, remove_account, get_best_available_account, update_account_credentials,
  clear_rate_limits, swap_priorities,
}

All-map :
    {A : Type 0} {P Q : A → Type 0} (f : (x : A) → P x → Q x) (xs : List A) → All P xs → All Q xs
All-map f [] h = tt
All-map f (x ∷ xs) h = (f x h.0, All-map f xs h.1)

module _ (F : Doubles) where
  -- The account is available, and no available one comes before it in priority.
  abbrev pub IsBest : ℕ → Pool F → Account F → Type 0
  IsBest now p a =
      (is_account_available F now a.credentials.account_uuid p ≡ true)
      × All
          (λ b.
            is_account_available F now b.credentials.account_uuid p ≡ true
            → a.priority ≤ b.priority)
          p.accounts

  abbrev Available : ℕ → Pool F → Account F → Type 0
  Available now p a = is_account_available F now a.credentials.account_uuid p ≡ true

  first_available-Any :
      (now : ℕ) (p : Pool F) (xs : List (Account F)) (c : Credentials F)
      → IsSorted xs
      → first_available F now p xs ≡ some c
      → Any
          (λ a.
            (a.credentials ≡ c)
            × Available now p a
            × All (λ b. Available now p b → a.priority ≤ b.priority) xs)
          xs
  unfolding first_available
  first_available-Any now p [] c s h = cc
  first_available-Any now p (a ∷ xs) c s h =
      elim (Bool-cases (is_account_available F now a.credentials.account_uuid p)) [
        | inl t ↦ inl (ground arith, t, ((λ _. omega arith), All-map (λ b k _. k) xs s.0))
        | inr f ↦
            let rest = first_available-Any now p xs c s.1 (ground arith) in
            inr (Any-map (λ x k. (k.0, k.1, ((λ v. absurd (ground arith)), k.2))) xs rest)
      ]

  first_available-none :
      (now : ℕ) (p : Pool F) (xs : List (Account F))
      → (first_available F now p xs ≡ none)
        ↔ All (λ a. is_account_available F now a.credentials.account_uuid p ≡ false) xs
  unfolding first_available
  first_available-none now p [] = (λ _. tt, λ _. refl)
  first_available-none now p (a ∷ xs) =
      let ih = first_available-none now p xs in
      elim (Bool-cases (is_account_available F now a.credentials.account_uuid p)) [
        | inl t ↦ (λ h. absurd (ground arith), λ h. absurd (ground arith))
        | inr f ↦ rw f (λ h. (refl, ih.0 h), λ h. ih.1 h.1)
      ]

module _ (F : Doubles) (S : Sorting F) where
  erase-All :
      (uuid : Text) (n : ℕ) (xs : List (Account F))
      → All (λ b. n ≤ b.priority) xs
      → All (λ b. n ≤ b.priority) (erase_account F uuid xs)
  unfolding erase_account
  erase-All uuid n [] h = tt
  erase-All uuid n (a ∷ xs) h = ground (arith, erase-All uuid n xs h.1)

  erase-IsSorted :
      (uuid : Text) (xs : List (Account F)) → IsSorted xs → IsSorted (erase_account F uuid xs)
  unfolding erase_account
  erase-IsSorted uuid [] h = tt
  erase-IsSorted uuid (a ∷ xs) h =
      ground (arith, erase-IsSorted uuid xs h.1, erase-All uuid a.priority xs h.0)

  module _ (f : Account F → Account F) (keeps : (a : Account F) → (f a).priority ≡ a.priority) where
    update-All :
        (uuid : Text) (n : ℕ) (xs : List (Account F))
        → All (λ b. n ≤ b.priority) xs
        → All (λ b. n ≤ b.priority) (update_account F uuid f xs)
    unfolding update_account
    update-All uuid n [] h = tt
    update-All uuid n (a ∷ xs) h = ground (arith, update-All uuid n xs h.1, keeps a)

    update-IsSorted :
        (uuid : Text) (xs : List (Account F)) → IsSorted xs → IsSorted (update_account F uuid f xs)
    unfolding update_account
    update-IsSorted uuid [] h = tt
    update-IsSorted uuid (a ∷ xs) h = elim (Bool-cases (text_eq a.credentials.account_uuid uuid)) [
      | inl t ↦ rw t (All-map (λ b k. rw (keeps a) k) xs h.0, h.1)
      | inr g ↦ rw g (update-All uuid a.priority xs h.0, update-IsSorted uuid xs h.1)
    ]

  -- The calls that a process makes on its accounts, at some time.
  pub data Call : Type 0 where
    add : Credentials F → ℕ → Call
    remove : Text → Call
    best : ℕ → Call
    update : Text → Credentials F → Call
    clear : Call
    swap : Text → Text → Call
    -- The accounts of the file are read, and the mark that a locked update makes after that.
    load : Document F → Call
    limit : Text → F.Double → Call

  -- A file that is loaded is read to its end: no account of it makes the reading throw.
  abbrev pub IsRead : Call → Type 0
  IsRead (load d) = (p : Pool F) → (from_json F S d p).1 ≡ true
  IsRead (add creds priority) = Unit
  IsRead (remove uuid) = Unit
  IsRead (best now) = Unit
  IsRead (update uuid creds) = Unit
  IsRead clear = Unit
  IsRead (swap uuid1 uuid2) = Unit
  IsRead (limit uuid until) = Unit

  unfoldable pub step : Pool F → Call → Pool F
  step p (add creds priority) = (add_account F S creds priority p).0
  step p (remove uuid) = (remove_account F S uuid p).0
  step p (best now) = (get_best_available_account F S now p).0
  step p (update uuid creds) = (update_account_credentials F S uuid creds p).0
  step p clear = clear_rate_limits F S p
  step p (swap uuid1 uuid2) = (swap_priorities F S uuid1 uuid2 p).0
  step p (load d) = (from_json F S d p).0
  step p (limit uuid until) = (set_limit F S uuid until p).0

  unfoldable pub run : Pool F → List Call → Pool F
  run p [] = p
  run p (c ∷ cs) = run (step p c) cs

  pub record Inv (p : Pool F) : Type 0 where
    pub sorted : IsSorted p.accounts
    pub no_limits : p.rate_limits ≡ []

  remove-Inv : (uuid : Text) (p : Pool F) → Inv p → Inv (remove_account F S uuid p).0
  unfolding remove_account erase
  remove-Inv uuid p v =
      ground (arith, erase-IsSorted uuid p.accounts v.sorted, ap (erase uuid) v.no_limits)

  best-Inv : (now : ℕ) (p : Pool F) → Inv p → Inv (get_best_available_account F S now p).0
  unfolding get_best_available_account
  best-Inv now p v = ground (arith)

  update-Inv :
      (uuid : Text) (creds : Credentials F) (p : Pool F)
      → Inv p
      → Inv (update_account_credentials F S uuid creds p).0
  unfolding update_account_credentials
  update-Inv uuid creds p v = ground (
    arith,
    update-IsSorted (λ b. record b { credentials = creds }) (λ a. refl) uuid p.accounts v.sorted,
  )

  swap-Inv : (uuid1 uuid2 : Text) (p : Pool F) → Inv p → Inv (swap_priorities F S uuid1 uuid2 p).0
  unfolding swap_priorities
  swap-Inv uuid1 uuid2 p v = elim (Option-cases (find_account F uuid1 p.accounts)) [
    | inl e ↦ rw (e, swap_priorities) v
    | inr (a, e) ↦ elim (Option-cases (find_account F uuid2 p.accounts)) [
      | inl g ↦ rw (e, swap_priorities) (rw (g, swap_priorities) v)
      | inr (b, g) ↦
          rw (e, swap_priorities)
            (rw (g, swap_priorities)
              (record { sorted = S.sort-IsSorted _; no_limits = v.no_limits }))
    ]
  ]

  load-Inv :
      (d : Document F) (p : Pool F)
      → (from_json F S d p).1 ≡ true
      → Inv p
      → Inv (from_json F S d p).0
  unfolding from_json
  load-Inv d p done v = elim (Option-cases (version_of F S d)) [
    | inl e ↦ absurd (ground arith)
    | inr (none, e) ↦ absurd (ground arith)
    | inr (some n, e) ↦ elim (Bool-cases (n == int_zero + 2)) [
      | inr b ↦ absurd (ground arith)
      | inl b ↦ elim (Option-cases (accounts_of F S d)) [
        | inl g ↦ absurd (ground arith)
        | inr (es, g) ↦ elim (Bool-cases (read_entries F es).1) [
          | inr c ↦ absurd (ground arith)
          | inl c ↦
              let sorted : from_json F S d p
                  ≡ (record p { accounts = S.sort (read_entries F es).0 }, true) =
                ground arith in
              rw sorted (record { sorted = S.sort-IsSorted _; no_limits = v.no_limits })
        ]
      ]
    ]
  ]

  limit-Inv :
      (uuid : Text) (until : F.Double) (p : Pool F) → Inv p → Inv (set_limit F S uuid until p).0
  unfolding set_limit
  limit-Inv uuid until p v = elim (Option-cases (find_account F uuid p.accounts)) [
    | inl e ↦ rw (e, set_limit) v
    | inr (b, e) ↦
        rw (e, set_limit)
          (record {
            sorted =
                update-IsSorted
                  (λ c. record c {
                    credentials = record c.credentials { rate_limited_until = until };
                  })
                  (λ a. refl) uuid p.accounts v.sorted;
            no_limits = v.no_limits;
          })
  ]

  step-Inv : (p : Pool F) (c : Call) → IsRead c → Inv p → Inv (step p c)
  unfolding step
  step-Inv p (add creds priority) r v =
      unfold add_account in record { sorted = S.sort-IsSorted _; no_limits = v.no_limits }
  step-Inv p (remove uuid) r v = remove-Inv uuid p v
  step-Inv p (best now) r v = best-Inv now p v
  step-Inv p (update uuid creds) r v = update-Inv uuid creds p v
  step-Inv p clear r v = unfold clear_rate_limits in record { sorted = v.sorted; no_limits = refl }
  step-Inv p (swap uuid1 uuid2) r v = swap-Inv uuid1 uuid2 p v
  step-Inv p (load d) r v = load-Inv d p (r p) v
  step-Inv p (limit uuid until) r v = limit-Inv uuid until p v

  run-Inv : (p : Pool F) (cs : List Call) → All IsRead cs → Inv p → Inv (run p cs)
  unfolding run
  run-Inv p [] r v = v
  run-Inv p (c ∷ cs) (r, rs) v = run-Inv (step p c) cs rs (step-Inv p c r v)

  best-first_available :
      (now : ℕ) (p : Pool F)
      → (get_best_available_account F S now p).1 ≡ first_available F now p p.accounts
  unfolding get_best_available_account first_available
  best-first_available now p = ground arith

  -- After any additions, removals, choices, updates, clearings, swaps, loads and marks, where each file
  -- that is loaded is read to its end, on a pool whose accounts are in the order of their priorities,
  -- and where no rate limit is held, the account that is handed out is an available one of the pool,
  -- and no available one comes before it in priority; and none is handed out exactly if none is
  -- available.
  pub IsBest-run :
      (p : Pool F) (cs : List Call) (now : ℕ)
      → All IsRead cs
      → Inv p
      → ((c : Credentials F)
          → (get_best_available_account F S now (run p cs)).1 ≡ some c
          → Any (λ a. (a.credentials ≡ c) × IsBest F now (run p cs) a) (run p cs).accounts)
        × (((get_best_available_account F S now (run p cs)).1 ≡ none)
            ↔ All
                (λ a. is_account_available F now a.credentials.account_uuid (run p cs) ≡ false)
                (run p cs).accounts)
  IsBest-run p cs now r v =
      let q = run p cs in
      rw (best-first_available now q) (
        λ c h.
            Any-map (λ a k. (k.0, (k.1, k.2))) q.accounts
              (first_available-Any F now q q.accounts c (run-Inv p cs r v).sorted h),
        first_available-none F now q q.accounts,
      )

  -- clear_rate_limits makes no account available: the limits that count are those in the accounts'
  -- credentials, and the map that it clears never holds one, whatever calls were made before.
  pub clear-run :
      (p : Pool F) (cs : List Call) (now : ℕ) (uuid : Text)
      → All IsRead cs
      → Inv p
      → ((run p cs).rate_limits ≡ [])
        × (is_account_available F now uuid (clear_rate_limits F S (run p cs))
            ≡ is_account_available F now uuid (run p cs))
  unfolding clear_rate_limits is_account_available
  clear-run p cs now uuid r v = ((run-Inv p cs r v).no_limits, refl)
