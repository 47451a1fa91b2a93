-- ===== src/Accounts.antt =====
-- sdk/auth/oauth_account_pool.h and .cpp and oauth_credentials.h: the OAuth accounts of a process
-- and their file, which several processes share under a lock. An `int` priority is held as its value
-- plus 2^31, which keeps the order. Times are seconds.
pub mod Ops
pub mod Order
pub mod Disk
pub mod Sharing
use ida_swarm.Base.{
  ℕ, ◌+◌, ◌≡◌, ◌↔◌, ◌^◌, ◌≤◌, List, [], ◌∷◌, ◌++◌, Option, none, some, Bool, true, false, not, ◌&&◌,
  Text, codes, text_eq, find_if, length, All, Any, leb, ltb, erase, if◌then◌else◌,
}

-- IEEE doubles as far as the code uses them: a number of seconds, and comparisons with one.
pub record Doubles : Type 1 where
  pub Double : Type 0
  pub of_seconds : ℕ → Double
  -- The conversions from and to an int, which is held like a priority.
  pub of_int : ℕ → Double
  pub to_int : Double → ℕ
  -- now < d
  pub is_before : ℕ → Double → Bool
  -- now >= d
  pub is_reached : ℕ → Double → Bool
  -- Comparing with a number of seconds is exact (these are below 2^53).
  pub before_seconds : (now t : ℕ) → is_before now (of_seconds t) ≡ ltb now t

abbrev pub int_zero : ℕ
int_zero = 2 ^ 31

pub record Credentials (F : Doubles) : Type 0 where
  pub access_token : Text
  pub refresh_token : Text
  pub expires_at : F.Double
  pub account_uuid : Text
  pub rate_limited_until : F.Double

pub record Account (F : Doubles) : Type 0 where
  pub credentials : Credentials F
  pub priority : ℕ

pub record RateLimitInfo : Type 0 where
  pub account_uuid : Text
  pub rate_limited_until : ℕ
  pub retry_after_seconds : ℕ

pub record Pool (F : Doubles) : Type 0 where
  pub accounts : List (Account F)
  pub rate_limits : List (Text × RateLimitInfo)
  pub last_error : Text

-- Accounts in the order of their priorities.
abbrev pub IsSorted : {F : Doubles} → List (Account F) → Type 0
IsSorted [] = Unit
IsSorted (a ∷ xs) = All (λ b. a.priority ≤ b.priority) xs × IsSorted xs

-- std::sort by priority; where priorities are equal the order is not determined.
pub record Sorting (F : Doubles) : Type 1 where
  pub sort : List (Account F) → List (Account F)
  pub sort-IsSorted : (xs : List (Account F)) → IsSorted (sort xs)
  pub Any-sort : (P : Account F → Type 0) (xs : List (Account F)) → Any P (sort xs) ↔ Any P xs

module _ (F : Doubles) where
  -- OAuthCredentials::is_expired(300)
  unfoldable pub is_expired : ℕ → Credentials F → Bool
  is_expired now c = F.is_reached (now + 300) c.expires_at

  -- OAuthCredentials::is_rate_limited
  unfoldable pub is_rate_limited : ℕ → Credentials F → Bool
  is_rate_limited now c = F.is_before now c.rate_limited_until

  abbrev pub has_uuid : Text → Account F → Bool
  has_uuid uuid a = text_eq a.credentials.account_uuid uuid

  unfoldable pub find_account : Text → List (Account F) → Option (Account F)
  find_account uuid = find_if (has_uuid uuid)

  -- Writes through the iterator that the search found.
  unfoldable pub update_account :
      Text → (Account F → Account F) → List (Account F) → List (Account F)
  update_account uuid f [] = []
  update_account uuid f (a ∷ xs) =
      if has_uuid uuid a then f a ∷ xs else a ∷ update_account uuid f xs

  unfoldable pub erase_account : Text → List (Account F) → List (Account F)
  erase_account uuid [] = []
  erase_account uuid (a ∷ xs) = if has_uuid uuid a then xs else a ∷ erase_account uuid xs

  usable : ℕ → Option (Account F) → Bool
  usable now none = false
  usable now (some a) =
      if is_expired now a.credentials && text_eq a.credentials.refresh_token []
      then false
      else not (is_rate_limited now a.credentials)

  unfoldable pub is_account_available : ℕ → Text → Pool F → Bool
  unfolding usable
  is_account_available now uuid p = usable now (find_account uuid p.accounts)

  -- The first of some accounts that is available in the pool.
  unfoldable pub first_available : ℕ → Pool F → List (Account F) → Option (Credentials F)
  first_available now p [] = none
  first_available now p (a ∷ xs) =
      if is_account_available now a.credentials.account_uuid p
      then some a.credentials
      else first_available now p xs

  sooner : RateLimitInfo → Option RateLimitInfo → Option RateLimitInfo
  sooner info none = some info
  sooner info (some s) =
      if ltb info.rate_limited_until s.rate_limited_until then some info else some s

  -- The loop over rate_limits_ with the soonest so far.
  unfoldable pub soonest_available :
      ℕ → List (Text × RateLimitInfo) → Option RateLimitInfo → Option RateLimitInfo
  unfolding sooner
  soonest_available now [] soonest = soonest
  soonest_available now ((uuid, info) ∷ m) soonest =
      soonest_available now m
        (if ltb now info.rate_limited_until then sooner info soonest else soonest)
