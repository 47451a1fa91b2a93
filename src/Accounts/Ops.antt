-- ===== src/Accounts/Ops.antt =====
-- The operations of sdk/auth/oauth_account_pool.cpp on the accounts in memory.
use ida_swarm.Base.{
  ℕ, ◌-◌, List, [], ◌∷◌, ◌++◌, Option, none, some, Bool, true, false, Text, codes, erase, length,
}
use ida_swarm.Base.Numbers.{print_number}
use ida_swarm.Accounts.{
  Doubles, Sorting, Credentials, Account, RateLimitInfo, Pool, find_account, update_account,
  erase_account, first_available, soonest_available,
}

module _ (F : Doubles) (S : Sorting F) where
  add_or_update : Credentials F → ℕ → List (Account F) → Option (Account F) → List (Account F)
  add_or_update creds priority xs none =
      xs ++ record { credentials = creds; priority = priority } ∷ []
  add_or_update creds priority xs (some old) =
      update_account F creds.account_uuid (λ a. record { credentials = creds; priority = priority })
        xs

  -- It always says that it is done.
  unfoldable pub add_account : Credentials F → ℕ → Pool F → Pool F × Bool
  unfolding add_or_update
  add_account creds priority p = (
    record p {
      accounts =
          S.sort (
            add_or_update creds priority p.accounts (find_account F creds.account_uuid p.accounts));
    },
    true,
  )

  unfoldable pub remove_account : Text → Pool F → Pool F × Bool
  remove_account uuid p = elim (find_account F uuid p.accounts) [
    | none ↦ (p, false)
    | some a ↦ (
      record p {
        accounts = erase_account F uuid p.accounts;
        rate_limits = erase uuid p.rate_limits;
      },
      true,
    )
  ]

  abbrev pub account_count : Pool F → ℕ
  account_count p = length p.accounts

  -- What is said when no account is available.
  no_account_text : ℕ → Option RateLimitInfo → Text
  no_account_text now none = codes "No OAuth accounts available (all rate limited or expired)"
  no_account_text now (some info) =
      codes "No OAuth accounts available (all rate limited, retry in "
      ++ (print_number 10 (info.rate_limited_until - now) ++ codes " seconds)")

  best_or_text : ℕ → Pool F → Option (Credentials F) → Pool F × Option (Credentials F)
  unfolding no_account_text
  best_or_text now p (some c) = (p, some c)
  best_or_text now p none = (
    record p { last_error = no_account_text now (soonest_available F now p.rate_limits none) },
    none,
  )

  unfoldable pub get_best_available_account : ℕ → Pool F → Pool F × Option (Credentials F)
  unfolding best_or_text
  get_best_available_account now p = elim p.accounts [
    | [] ↦ (record p { last_error = codes "No OAuth accounts available" }, none)
    | a ∷ xs ↦ best_or_text now p (first_available F now p p.accounts)
  ]

  unfoldable pub update_account_credentials : Text → Credentials F → Pool F → Pool F × Bool
  update_account_credentials uuid creds p = elim (find_account F uuid p.accounts) [
    | none ↦ (p, false)
    | some a ↦ (
      record p {
        accounts = update_account F uuid (λ b. record b { credentials = creds }) p.accounts;
      },
      true,
    )
  ]

  unfoldable pub clear_rate_limits : Pool F → Pool F
  clear_rate_limits p = record p { rate_limits = [] }

  -- std::swap of the two priorities, by what the iterators pointed to before.
  swapped : Text → Text → Account F → Account F → List (Account F) → List (Account F)
  swapped uuid1 uuid2 a b xs =
      update_account F uuid2 (λ c. record c { priority = a.priority })
        (update_account F uuid1 (λ c. record c { priority = b.priority }) xs)

  unfoldable pub swap_priorities : Text → Text → Pool F → Pool F × Bool
  unfolding swapped
  swap_priorities uuid1 uuid2 p = elim (find_account F uuid1 p.accounts) [
    | none ↦ (p, false)
    | some a ↦ elim (find_account F uuid2 p.accounts) [
      | none ↦ (p, false)
      | some b ↦ (record p { accounts = S.sort (swapped uuid1 uuid2 a b p.accounts) }, true)
    ]
  ]
