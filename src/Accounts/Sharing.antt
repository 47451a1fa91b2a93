-- ===== src/Accounts/Sharing.antt =====
-- What one process writes to the accounts' file of sdk/auth/oauth_account_pool.cpp, another reads.
use ida_swarm.Base.{
  lookup, ℕ, ◌+◌, ◌≡◌, ◌≢◌, ◌<◌, refl, sym, subst, ◌∙◌, inl, inr, List, [], ◌∷◌, Option, some, Bool,
  true, false, Text, text_eq, text_eq_iff, find_if, find_if-All, All, Any, lt→ltb, arith,
  Option-cases, Bool-cases,
}
use ida_swarm.Accounts.{
  int_zero, Doubles, Sorting, Account, Pool, find_account, update_account, is_account_available,
  is_rate_limited,
}
use ida_swarm.Accounts.Disk.{
  Entry, Document, entries_of, to_json, Codec, Answers, read_entry, read_entries, from_json,
  version_of, accounts_of, load_from_disk, save_to_disk, update_on_disk, mark_rate_limited,
  set_limit, reload,
}

All-members :
    {A : Type 0} (P : A → Type 0) (xs : List A) → ((x : A) → Any (λ y. y ≡ x) xs → P x) → All P xs
All-members P [] h = tt
All-members P (x ∷ xs) h = (h x (inl refl), All-members P xs (λ y k. h y (inr k)))

members-All :
    {A : Type 0} (P : A → Type 0) (xs : List A) (x : A) → All P xs → Any (λ y. y ≡ x) xs → P x
members-All P [] x h k = absurd k
members-All P (y ∷ xs) x h (inl e) = subst P e h.0
members-All P (y ∷ xs) x h (inr k) = members-All P xs x h.1 k

find_if-test :
    {A : Type 0} (t : A → Bool) (xs : List A) (x : A) → find_if t xs ≡ some x → t x ≡ true
unfolding find_if
find_if-test t [] x h = cc
find_if-test t (y ∷ xs) x h = elim (Bool-cases (t y)) [
  | inl e ↦ let same : y ≡ x = ground arith in subst (λ z. t z ≡ true) same e
  | inr f ↦ find_if-test t xs x (ground arith)
]

-- No two accounts have one uuid.
abbrev pub IsDistinct : {F : Doubles} → List (Account F) → Type 0
IsDistinct [] = Unit
IsDistinct (a ∷ xs) =
    All (λ b. b.credentials.account_uuid ≢ a.credentials.account_uuid) xs × IsDistinct xs

abbrev pub limited : {F : Doubles} → F.Double → Account F → Account F
limited until c = record c { credentials = record c.credentials { rate_limited_until = until } }

module _ (F : Doubles) (S : Sorting F) where
  -- The account of the uuid, if it is there, has the limit.
  abbrev Limited : Text → F.Double → Account F → Type 0
  Limited uuid until a =
      a.credentials.account_uuid ≡ uuid → a.credentials.rate_limited_until ≡ until

  others-Limited :
      (uuid other : Text) (until : F.Double) (xs : List (Account F))
      → other ≡ uuid
      → All (λ b. b.credentials.account_uuid ≢ other) xs
      → All (Limited uuid until) xs
  others-Limited uuid other until [] e h = tt
  others-Limited uuid other until (a ∷ xs) e h =
      ((λ k. absurd (h.0 (k ∙ sym e))), others-Limited uuid other until xs e h.1)

  update-Limited :
      (uuid : Text) (until : F.Double) (xs : List (Account F))
      → IsDistinct xs
      → All (Limited uuid until) (update_account F uuid (limited until) xs)
  unfolding update_account
  update-Limited uuid until [] h = tt
  update-Limited uuid until (a ∷ xs) h =
      elim (Bool-cases (text_eq a.credentials.account_uuid uuid)) [
        | inl t ↦ rw t (
          (λ _. refl),
          others-Limited uuid a.credentials.account_uuid until xs
              ((text_eq_iff a.credentials.account_uuid uuid).0 t) h.0,
        )
        | inr f ↦ rw f (
          (λ e. absurd (ground (arith, text_eq_iff a.credentials.account_uuid uuid))),
          update-Limited uuid until xs h.1,
        )
      ]

  -- An account with a limit in the future is not available.
  unavailable :
      (later until : ℕ) (uuid : Text) (p : Pool F)
      → later < until
      → All (Limited uuid (F.of_seconds until)) p.accounts
      → is_account_available F later uuid p ≡ false
  unfolding is_account_available is_rate_limited find_account
  unavailable later until uuid p h l =
      elim (Option-cases
        (find_if (λ (a : Account F). text_eq a.credentials.account_uuid uuid) p.accounts)) [
          | inl e ↦ ground arith
          | inr (x, e) ↦
              let found = find_if-test _ p.accounts x e in
              let same = (text_eq_iff x.credentials.account_uuid uuid).0 found in
              let limit = find_if-All (Limited uuid (F.of_seconds until)) _ p.accounts x l e same in
              ground (arith, F.before_seconds later until, lt→ltb later until h)
        ]

  All-sort : (P : Account F → Type 0) (xs : List (Account F)) → All P xs → All P (S.sort xs)
  All-sort P xs h =
      All-members P (S.sort xs) (λ x k. members-All P xs x h ((S.Any-sort (λ y. y ≡ x) xs).0 k))

  read_entries-entries_of : (xs : List (Account F)) → read_entries F (entries_of xs) ≡ (xs, true)
  unfolding read_entries entries_of read_entry lookup text_eq
  read_entries-entries_of [] = refl
  read_entries-entries_of (a ∷ xs) = rw (read_entries-entries_of xs)

  from_json-to_json :
      (xs : List (Account F)) (p : Pool F)
      → from_json F S (to_json xs) p ≡ (record p { accounts = S.sort xs }, true)
  unfolding from_json to_json version_of accounts_of lookup text_eq
  from_json-to_json xs p = rw (read_entries-entries_of xs)

  module _ (K : Codec F) where
    -- What a process has saved, another process that gets the lock and opens the file loads: the same
    -- accounts, in the order of their priorities.
    pub load-save :
        (a b : Answers) (file : Option K.Content) (p q : Pool F)
        → (save_to_disk F S K a file p).2 ≡ true
        → b.lock_acquired ≡ true
        → b.file_opens ≡ true
        → load_from_disk F S K b (save_to_disk F S K a file p).0 q
          ≡ (record q { accounts = S.sort p.accounts }, true)
    unfolding save_to_disk load_from_disk
    load-save a b file p q saved locked opened =
        ground (arith, K.parse-dump (to_json p.accounts), from_json-to_json p.accounts q)

    marked :
        (a : Answers) (now : ℕ) (uuid : Text) (retry : ℕ) (file : Option K.Content) (p : Pool F)
        → (mark_rate_limited F S K a now uuid retry file p).2 ≡ true
        → (mark_rate_limited F S K a now uuid retry file p).0
          ≡ some (
              K.dump (
                to_json (
                  update_account F uuid
                    (limited (F.of_seconds (now + retry)))
                    (reload F S K a file p).accounts)))
    unfolding mark_rate_limited update_on_disk set_limit
    marked a now uuid retry file p h = ground arith

    -- Once one process has marked an account as rate limited, with success and in a file that has each
    -- uuid once, any process that then gets the lock and loads the file finds the account not
    -- available, up to the end of the limit.
    pub available-mark :
        (a b : Answers) (now retry later : ℕ) (uuid : Text) (file : Option K.Content) (p q : Pool F)
        → (mark_rate_limited F S K a now uuid retry file p).2 ≡ true
        → IsDistinct (reload F S K a file p).accounts
        → b.lock_acquired ≡ true
        → b.file_opens ≡ true
        → later < now + retry
        → is_account_available F later uuid
            (load_from_disk F S K b (mark_rate_limited F S K a now uuid retry file p).0 q).0
          ≡ false
    unfolding load_from_disk
    available-mark a b now retry later uuid file p q done distinct locked opened soon =
        let until = F.of_seconds (now + retry) in
        let xs = update_account F uuid (limited until) (reload F S K a file p).accounts in
        let loaded : load_from_disk F S K b (some (K.dump (to_json xs))) q
            ≡ (record q { accounts = S.sort xs }, true) =
          ground (arith, K.parse-dump (to_json xs), from_json-to_json xs q) in
        rw (marked a now uuid retry file p done, loaded)
          (unavailable later (now + retry) uuid (record q { accounts = S.sort xs }) soon
            (All-sort (Limited uuid until) xs (update-Limited uuid until _ distinct)))

    -- Where reading the file throws at some account, marking an account before it saves only the
    -- accounts before that point: the others are gone from the file.
    pub mark_truncates :
        (a : Answers) (now retry : ℕ) (uuid : Text) (t : K.Content) (d : Document F)
        (es : List (Entry F)) (xs : List (Account F)) (b : Account F) (p : Pool F)
        → a.lock_acquired ≡ true
        → a.file_opens ≡ true
        → a.write_succeeds ≡ true
        → K.parse t ≡ some d
        → version_of F S d ≡ some (some (int_zero + 2))
        → accounts_of F S d ≡ some es
        → read_entries F es ≡ (xs, false)
        → find_account F uuid xs ≡ some b
        → ((mark_rate_limited F S K a now uuid retry (some t) p).2 ≡ true)
          × ((mark_rate_limited F S K a now uuid retry (some t) p).0
              ≡ some (
                  K.dump
                    (to_json (update_account F uuid (limited (F.of_seconds (now + retry))) xs))))
    unfolding mark_rate_limited update_on_disk set_limit reload from_json version_of accounts_of
    mark_truncates a now retry uuid t d es xs b p l o w pd v da re f = (ground arith, ground arith)
