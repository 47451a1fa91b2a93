-- ===== src/Accounts/Disk.antt =====
-- The shared file of sdk/auth/oauth_account_pool.cpp: load, save, and the locked update.
use ida_swarm.Base.{
  ℕ, ◌+◌, ◌≡◌, List, [], ◌∷◌, Option, none, some, Bool, true, false, Text, codes, lookup, ◌==◌,
  if◌then◌else◌,
}
use ida_swarm.Accounts.{Doubles, Sorting, Account, Pool, int_zero, find_account, update_account}

-- What a key of a JSON object holds; an int is held like a priority.
pub data Value (F : Doubles) : Type 0 where
  text : Text → Value F
  real : F.Double → Value F
  whole : ℕ → Value F
  other : Value F

-- One element of the array of accounts.
pub data Entry (F : Doubles) : Type 0 where
  object : List (Text × Value F) → Entry F
  no_object : Entry F

-- What a key of the whole file holds: the array of accounts, or a value.
pub data Member (F : Doubles) : Type 0 where
  array : List (Entry F) → Member F
  single : Value F → Member F

-- A parsed file; one that is no object has no keys.
pub record Document (F : Doubles) : Type 0 where
  pub members : List (Text × Member F)

abbrev pub entry_of : {F : Doubles} → Account F → Entry F
entry_of a = object (
    (codes "priority", whole a.priority)
    ∷ (codes "access_token", text a.credentials.access_token)
    ∷ (codes "refresh_token", text a.credentials.refresh_token)
    ∷ (codes "expires_at", real a.credentials.expires_at)
    ∷ (codes "account_uuid", text a.credentials.account_uuid)
    ∷ (codes "rate_limited_until", real a.credentials.rate_limited_until)
    ∷ (codes "provider", text (codes "claude_ai"))
    ∷ [])

unfoldable pub entries_of : {F : Doubles} → List (Account F) → List (Entry F)
entries_of [] = []
entries_of (a ∷ xs) = entry_of a ∷ entries_of xs

-- to_json
unfoldable pub to_json : {F : Doubles} → List (Account F) → Document F
to_json xs = record {
  members =
      (codes "version", single (whole (int_zero + 2)))
      ∷ (codes "accounts", array (entries_of xs))
      ∷ [];
}

-- nlohmann::json: dump(2) and parse of such values. Parsing what was dumped gives it back.
pub record Codec (F : Doubles) : Type 1 where
  -- The content of a file.
  pub Content : Type 0
  pub dump : Document F → Content
  pub parse : Content → Option (Document F)
  pub parse-dump : (d : Document F) → parse (dump d) ≡ some d

-- How the operating system answers: the lock, the reading, and the writing with its rename.
pub record Answers : Type 0 where
  pub lock_acquired : Bool
  pub file_opens : Bool
  pub write_succeeds : Bool

module _ (F : Doubles) where
  infixl 5 ◌>>=◌
  abbrev ◌>>=◌ : {A B : Type 0} → Option A → (A → Option B) → Option B
  none >>= f = none
  some a >>= f = f a

  -- A value as a std::string, a double and an int; `none` where the conversion throws.
  unfoldable pub as_text : Value F → Option Text
  as_text (text t) = some t
  as_text (real d) = none
  as_text (whole n) = none
  as_text other = none

  unfoldable pub as_double : Value F → Option F.Double
  as_double (text t) = none
  as_double (real d) = some d
  as_double (whole n) = some (F.of_int n)
  as_double other = none

  unfoldable pub as_int : Value F → Option ℕ
  as_int (text t) = none
  as_int (real d) = some (F.to_int d)
  as_int (whole n) = some n
  as_int other = none

  -- j[key], which must be there, and j.value(key, default)
  unfoldable pub at_key : {A : Type 0} → (Value F → Option A) → Option (Value F) → Option A
  at_key read none = none
  at_key read (some v) = read v

  unfoldable pub value_or : {A : Type 0} → (Value F → Option A) → A → Option (Value F) → Option A
  value_or read default none = some default
  value_or read default (some v) = read v

  unfoldable pub read_object : List (Text × Value F) → Option (Account F)
  unfolding lookup as_text as_double as_int at_key value_or
  read_object o = do
    access ← at_key as_text (lookup (codes "access_token") o)
    refresh ← value_or as_text [] (lookup (codes "refresh_token") o)
    expires ← value_or as_double (F.of_seconds 0) (lookup (codes "expires_at") o)
    uuid ← value_or as_text [] (lookup (codes "account_uuid") o)
    limited ← value_or as_double (F.of_seconds 0) (lookup (codes "rate_limited_until") o)
    prio ← value_or as_int int_zero (lookup (codes "priority") o)
    some (record {
      credentials = record {
        access_token = access;
        refresh_token = refresh;
        expires_at = expires;
        account_uuid = uuid;
        rate_limited_until = limited;
      };
      priority = prio;
    })

  unfoldable pub read_entry : Entry F → Option (Account F)
  unfolding read_object
  read_entry (object o) = read_object o
  read_entry no_object = none

  -- The accounts read until the end or the first throw, and whether the end was reached.
  unfoldable pub read_entries : List (Entry F) → List (Account F) × Bool
  read_entries [] = ([], true)
  read_entries (e ∷ es) = elim (read_entry e) [
    | none ↦ ([], false)
    | some a ↦ let (xs, done) = read_entries es in (a ∷ xs, done)
  ]

module _ (F : Doubles) (S : Sorting F) where
  failed : Text → Pool F → Pool F × Bool
  failed error p = (record p { last_error = error }, false)

  -- A throw leaves the accounts that were read before it, unsorted. The reason in the text of the
  -- error is left out, here and below.
  load_entries : List (Account F) × Bool → Pool F → Pool F × Bool
  load_entries (xs, true) p = (record p { accounts = S.sort xs }, true)
  load_entries (xs, false) p =
      failed (codes "Failed to parse credentials JSON: ") (record p { accounts = xs })

  load_accounts : Option (List (Entry F)) → Pool F → Pool F × Bool
  load_accounts none p = failed (codes "Missing or invalid accounts array") p
  load_accounts (some es) p = load_entries (read_entries F es) p

  -- The version, if the file has one, and `some none` where it is no number.
  unfoldable pub version_in : Option (Member F) → Option (Option ℕ)
  unfolding as_int
  version_in none = none
  version_in (some (array es)) = some none
  version_in (some (single v)) = some (as_int F v)

  unfoldable pub version_of : Document F → Option (Option ℕ)
  unfolding version_in lookup
  version_of d = version_in (lookup (codes "version") d.members)

  unfoldable pub array_in : Option (Member F) → Option (List (Entry F))
  array_in none = none
  array_in (some (array es)) = some es
  array_in (some (single v)) = none

  unfoldable pub accounts_of : Document F → Option (List (Entry F))
  unfolding array_in lookup
  accounts_of d = array_in (lookup (codes "accounts") d.members)

  load_version : Option ℕ → Document F → Pool F → Pool F × Bool
  unfolding accounts_of
  load_version none d p = failed (codes "Failed to parse credentials JSON: ") p
  load_version (some v) d p =
      if v == int_zero + 2
      then load_accounts (accounts_of d) p
      else failed (codes "Unsupported credentials version: ") p

  unfoldable pub from_json : Document F → Pool F → Pool F × Bool
  unfolding load_version load_accounts load_entries failed version_of
  from_json d p = elim (version_of d) [
    | none ↦ failed (codes "Missing version field in credentials") p
    | some v ↦ load_version v d p
  ]

  unfoldable pub set_limit : Text → F.Double → Pool F → Pool F × Bool
  set_limit uuid until p = elim (find_account F uuid p.accounts) [
    | none ↦ (p, false)
    | some b ↦ (
      record p {
        accounts =
            update_account F uuid
              (λ c. record c { credentials = record c.credentials { rate_limited_until = until } })
              p.accounts;
      },
      true,
    )
  ]

  module _ (K : Codec F) where
    load_text : K.Content → Pool F → Pool F × Bool
    load_text t p = elim (K.parse t) [
      | none ↦ failed (codes "Failed to parse credentials JSON: ") p
      | some d ↦ from_json d p
    ]

    -- `file` is the content of the credentials file, if it exists.
    unfoldable pub load_from_disk : Answers → Option K.Content → Pool F → Pool F × Bool
    unfolding load_text failed
    load_from_disk a none p =
        if a.lock_acquired
        then failed (codes "Credentials file does not exist") p
        else failed (codes "Failed to acquire lock for reading credentials") p
    load_from_disk a (some t) p =
        if a.lock_acquired
        then (if a.file_opens
            then load_text t p
            else failed (codes "Failed to read credentials file") p)
        else failed (codes "Failed to acquire lock for reading credentials") p

    -- The file that is left, the pool and the result.
    unfoldable pub save_to_disk :
        Answers → Option K.Content → Pool F → Option K.Content × Pool F × Bool
    save_to_disk a file p =
        if a.lock_acquired
        then (if a.write_succeeds
            then (some (K.dump (to_json p.accounts)), p, true)
            else (file, record p { last_error = codes "Failed to write credentials file" }, false))
        else (
          file,
          record p { last_error = codes "Failed to acquire lock for writing credentials" },
          false,
        )

    -- The load inside an update, whose failures are passed over.
    reload_text : Option (Document F) → Pool F → Pool F
    reload_text none p = p
    reload_text (some d) p = (from_json d p).0

    unfoldable pub reload : Answers → Option K.Content → Pool F → Pool F
    unfolding reload_text
    reload a none p = p
    reload a (some t) p = if a.file_opens then reload_text (K.parse t) p else p

    store : Answers → Option K.Content → Pool F × Bool → Option K.Content × Pool F × Bool
    store a file (p, false) = (file, p, false)
    store a file (p, true) =
        if a.write_succeeds
        then (some (K.dump (to_json p.accounts)), p, true)
        else (file, record p { last_error = codes "Failed to write updated credentials" }, false)

    -- Read, modify and write under the exclusive lock; the callback says whether to save.
    unfoldable pub update_on_disk :
        Answers
        → (Pool F → Pool F × Bool)
        → Option K.Content
        → Pool F
        → Option K.Content × Pool F × Bool
    unfolding store
    update_on_disk a modify file p =
        if a.lock_acquired then store a file (modify (reload a file p)) else (
          file,
          record p { last_error = codes "Failed to acquire lock for updating credentials" },
          false,
        )

    unfoldable pub mark_rate_limited :
        Answers → ℕ → Text → ℕ → Option K.Content → Pool F → Option K.Content × Pool F × Bool
    mark_rate_limited a now uuid retry_after_seconds file p =
        update_on_disk a (set_limit uuid (F.of_seconds (now + retry_after_seconds))) file p
