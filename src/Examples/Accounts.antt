-- ===== src/Examples/Accounts.antt =====
-- The account pool at concrete inputs: times are numbers, and a file holds its document.
use ida_swarm.Base.{
  lookup, ℕ, ◌+◌, ◌≤◌, ◌≡◌, ◌↔◌, ◌⊎◌, refl, inl, inr, List, [], ◌∷◌, none, some, true, false, Text,
  codes, text_eq, All, Any, leb, ltb, if◌then◌else◌, arith, Bool-cases, find_if,
}
use ida_swarm.Accounts.{
  Doubles, Sorting, Credentials, Account, Pool, IsSorted, find_account, is_account_available,
  int_zero,
}
use ida_swarm.Accounts.Ops.{get_best_available_account}
use ida_swarm.Accounts.Order.{load, limit, IsRead, Inv, Call, add, clear, run, IsBest, IsBest-run}
use ida_swarm.Accounts.Disk.{
  Entry, object, text, Document, entry_of, entries_of, to_json, Codec, Answers, read_entry,
  read_entries, from_json, load_from_disk, save_to_disk, update_on_disk, mark_rate_limited,
  set_limit, reload,
}
use ida_swarm.Accounts.Sharing.{IsDistinct, load-save, available-mark}

abbrev seconds : Doubles
seconds = record {
  Double = ℕ;
  of_seconds = λ n. n;
  of_int = λ n. n;
  to_int = λ d. d;
  is_before = ltb;
  is_reached = λ now d. leb d now;
  before_seconds = λ now t. refl;
}

insert : Account seconds → List (Account seconds) → List (Account seconds)
insert a [] = a ∷ []
insert a (b ∷ xs) = if leb a.priority b.priority then a ∷ b ∷ xs else b ∷ insert a xs

insertion_sort : List (Account seconds) → List (Account seconds)
unfolding insert
insertion_sort [] = []
insertion_sort (a ∷ xs) = insert a (insertion_sort xs)

All-le_trans :
    (m n : ℕ) (xs : List (Account seconds))
    → m ≤ n
    → All (λ b. n ≤ b.priority) xs
    → All (λ b. m ≤ b.priority) xs
All-le_trans m n [] h k = tt
All-le_trans m n (b ∷ xs) h k = (omega arith, All-le_trans m n xs h k.1)

insert-All :
    (n : ℕ) (a : Account seconds) (xs : List (Account seconds))
    → n ≤ a.priority
    → All (λ b. n ≤ b.priority) xs
    → All (λ b. n ≤ b.priority) (insert a xs)
unfolding insert
insert-All n a [] h k = (h, tt)
insert-All n a (b ∷ xs) h k = ground (arith, insert-All n a xs h k.1)

insert-IsSorted :
    (a : Account seconds) (xs : List (Account seconds)) → IsSorted xs → IsSorted (insert a xs)
unfolding insert
insert-IsSorted a [] h = (tt, tt)
insert-IsSorted a (b ∷ xs) h = ground (
  arith,
  insert-IsSorted a xs h.1,
  insert-All b.priority a xs,
  All-le_trans a.priority b.priority xs,
)

insertion_sort-IsSorted : (xs : List (Account seconds)) → IsSorted (insertion_sort xs)
unfolding insertion_sort
insertion_sort-IsSorted [] = tt
insertion_sort-IsSorted (a ∷ xs) = insert-IsSorted a _ (insertion_sort-IsSorted xs)

Any-insert :
    (P : Account seconds → Type 0) (a : Account seconds) (xs : List (Account seconds))
    → Any P (insert a xs) ↔ (P a ⊎ Any P xs)
unfolding insert
Any-insert P a [] = (λ k. k, λ k. k)
Any-insert P a (b ∷ xs) = elim (Bool-cases (leb a.priority b.priority)) [
  | inl t ↦ rw t (λ k. k, λ k. k)
  | inr f ↦
      let ih = Any-insert P a xs in
      rw f (
        λ k. elim k [
          | inl pb ↦ inr (inl pb)
          | inr rest ↦ elim (ih.0 rest) [ inl pa ↦ inl pa | inr r ↦ inr (inr r) ]
        ],
        λ k. elim k [
          | inl pa ↦ inr (ih.1 (inl pa))
          | inr r ↦ elim r [ inl pb ↦ inl pb | inr s ↦ inr (ih.1 (inr s)) ]
        ],
      )
]

Any-insertion_sort :
    (P : Account seconds → Type 0) (xs : List (Account seconds))
    → Any P (insertion_sort xs) ↔ Any P xs
unfolding insertion_sort
Any-insertion_sort P [] = (λ k. k, λ k. k)
Any-insertion_sort P (a ∷ xs) =
    let ih = Any-insertion_sort P xs in
    let ins = Any-insert P a (insertion_sort xs) in
    (
      λ k. elim (ins.0 k) [ inl pa ↦ inl pa | inr r ↦ inr (ih.0 r) ],
      λ k. elim k [ inl pa ↦ ins.1 (inl pa) | inr r ↦ ins.1 (inr (ih.1 r)) ],
    )

abbrev by_priority : Sorting seconds
by_priority = record {
  sort = insertion_sort;
  sort-IsSorted = insertion_sort-IsSorted;
  Any-sort = Any-insertion_sort;
}

abbrev documents : Codec seconds
documents = record {
  Content = Document seconds;
  dump = λ d. d;
  parse = λ d. some d;
  parse-dump = λ d. refl;
}

abbrev account : Text → ℕ → ℕ → Account seconds
account uuid priority until = record {
  credentials = record {
    access_token = codes "token";
    refresh_token = codes "refresh";
    expires_at = 1000;
    account_uuid = uuid;
    rate_limited_until = until;
  };
  priority = priority;
}

abbrev primary : Account seconds
primary = account (codes "u1") int_zero 0

abbrev secondary : Account seconds
secondary = account (codes "u2") (int_zero + 1) 0

abbrev pool_of : List (Account seconds) → Pool seconds
pool_of xs = record { accounts = xs; rate_limits = []; last_error = [] }

abbrev willing : Answers
willing = record { lock_acquired = true; file_opens = true; write_succeeds = true }

empty-Inv : Inv seconds by_priority (pool_of [])
empty-Inv = record { sorted = tt; no_limits = refl }

abbrev calls : List (Call seconds by_priority)
calls =
    load (to_json (secondary ∷ []))
    ∷ add secondary.credentials (int_zero + 1)
    ∷ add primary.credentials int_zero
    ∷ limit (codes "u9") 7
    ∷ clear
    ∷ []

secondary_read :
    (p : Pool seconds) → (from_json seconds by_priority (to_json (secondary ∷ [])) p).1 ≡ true
unfolding from_json to_json entries_of read_entries read_entry lookup text_eq
secondary_read p = refl

calls-IsRead : All (IsRead seconds by_priority) calls
calls-IsRead = (secondary_read, (tt, (tt, (tt, (tt, tt)))))

abbrev after_calls : Pool seconds
after_calls = run seconds by_priority (pool_of []) calls

IsBest-run_example :
    ((c : Credentials seconds)
      → (get_best_available_account seconds by_priority 5 after_calls).1 ≡ some c
      → Any (λ a. (a.credentials ≡ c) × IsBest seconds 5 after_calls a) after_calls.accounts)
    × (((get_best_available_account seconds by_priority 5 after_calls).1 ≡ none)
        ↔ All
            (λ a. is_account_available seconds 5 a.credentials.account_uuid after_calls ≡ false)
            after_calls.accounts)
IsBest-run_example = IsBest-run seconds by_priority (pool_of []) calls 5 calls-IsRead empty-Inv

abbrev file_of : List (Account seconds) → Document seconds
file_of xs = to_json xs

saved :
    (save_to_disk seconds by_priority documents willing none (pool_of (secondary ∷ primary ∷ []))).2
    ≡ true
unfolding save_to_disk
saved = refl

load-save_example :
    load_from_disk seconds by_priority documents willing
      (save_to_disk seconds by_priority documents willing none
        (pool_of (secondary ∷ primary ∷ []))).0
      (pool_of [])
    ≡ (pool_of (insertion_sort (secondary ∷ primary ∷ [])), true)
load-save_example =
    load-save seconds by_priority documents willing willing none
      (pool_of (secondary ∷ primary ∷ [])) (pool_of []) saved refl refl

marking :
    (mark_rate_limited seconds by_priority documents willing 100
      (codes "u1")
      60
      (some (file_of (primary ∷ secondary ∷ [])))
      (pool_of [])).2
    ≡ true
unfolding mark_rate_limited update_on_disk set_limit reload from_json to_json entries_of lookup
    read_entries read_entry find_account find_if text_eq insertion_sort
marking = refl

no_doubles :
    IsDistinct
      (reload seconds by_priority documents willing
        (some (file_of (primary ∷ secondary ∷ [])))
        (pool_of [])).accounts
unfolding reload from_json entries_of read_entries read_entry insertion_sort to_json text_eq lookup
no_doubles = (((λ e. ground (arith, e)), tt), (tt, tt))

available-mark_example :
    is_account_available seconds 130
      (codes "u1")
      (load_from_disk seconds by_priority documents willing
        (mark_rate_limited seconds by_priority documents willing 100
          (codes "u1")
          60
          (some (file_of (primary ∷ secondary ∷ [])))
          (pool_of [])).0
        (pool_of [])).0
    ≡ false
available-mark_example =
    available-mark seconds by_priority documents willing willing 100 60 130 (codes "u1")
      (some (file_of (primary ∷ secondary ∷ []))) (pool_of []) (pool_of []) marking no_doubles refl
      refl (omega arith)

-- The second entry of this file has no access token.
abbrev broken_entry : Entry seconds
broken_entry = object ((codes "account_uuid", text (codes "u3")) ∷ [])

broken_read :
    read_entries seconds (entry_of primary ∷ broken_entry ∷ entry_of secondary ∷ [])
    ≡ (primary ∷ [], false)
unfolding read_entries read_entry lookup text_eq
broken_read = refl

found_primary : find_account seconds (codes "u1") (primary ∷ []) ≡ some primary
unfolding find_account find_if text_eq
found_primary = refl
