-- ===== src/Injection/Space.antt =====
-- Where patching/code_injection_manager.cpp puts code: the caves that its search finds.
use ida_swarm.Base.{
  ℕ, zero, suc, ◌+◌, ◌-◌, ◌%◌, ◌≡◌, ◌≤◌, ◌<◌, ◌⊎◌, inl, inr, refl, ◌∙◌, ap, subst, List, [], ◌∷◌,
  Option, none, some, Bool, true, false, ◌&&◌, ltb, leb, ◌==◌, add64, add64_small, word, All, Any,
  if◌then◌else◌, arith, Bool-cases, Option-cases,
}
use ida_swarm.NoGo.{NoGoZone, badaddr, is_no_go_range}
use ida_swarm.Injection.{Platform, Segment, Ida, CodeCave, is_padding_byte}
use ida_swarm.Injection.Caves.{
  count_same, has_code, outside_code, count_cave_bytes, is_in_no_go_zone, scan_segment,
  scan_segments, find_code_cave,
}

module _ (I : Ida) (P : Platform) where
  count_same-le : (n : ℕ) (db : I.Database) (b ea : ℕ) → count_same I P n db b ea ≤ n
  unfolding count_same
  count_same-le zero db b ea = omega arith
  count_same-le (suc n) db b ea = ground (arith, count_same-le n db b (add64 ea 1))

  -- A run as long as was asked for: each byte of it is the byte.
  count_same-full :
      (n : ℕ) (db : I.Database) (b ea i : ℕ)
      → ea < word
      → count_same I P n db b ea ≡ n
      → i < n
      → I.get_byte db ((ea + i) % word) ≡ b
  unfolding count_same add64
  count_same-full zero db b ea i w h l = absurd (omega arith)
  count_same-full (suc n) db b ea zero w h l =
      let here : (ea + 0) % word ≡ ea = omega arith in ap (I.get_byte db) here ∙ ground (arith)
  count_same-full (suc n) db b ea (suc i) w h l =
      let there : (ea + suc i) % word ≡ ((ea + 1) % word + i) % word = omega arith in
      ap (I.get_byte db) there
      ∙ count_same-full n db b ((ea + 1) % word) i (omega arith) (ground arith) (omega arith)

  outside_code-cases :
      (db : I.Database) (ea count c : ℕ) (f : Option (ℕ × ℕ))
      → outside_code I P db ea count f ≡ some c
      → (c ≡ 0) ⊎ (c ≡ count)
  unfolding outside_code
  outside_code-cases db ea count c none h = ground arith
  outside_code-cases db ea count c (some (start, end)) h =
      elim (Option-cases (has_code I P (suc count) db ea (add64 ea count))) [
        | inl e ↦ ground arith
        | inr (b, e) ↦ elim (Bool-cases b) [ inl t ↦ ground arith | inr f ↦ ground arith ]
      ]

  -- What a count is worth: none, or a run of a padding byte.
  count_cave_bytes-cases :
      (db : I.Database) (ea max c : ℕ)
      → count_cave_bytes I P db ea max ≡ some c
      → (c ≡ 0)
        ⊎ ((c ≡ count_same I P max db (I.get_byte db ea) ea)
            × (is_padding_byte P (I.get_byte db ea) ≡ true))
  unfolding count_cave_bytes
  count_cave_bytes-cases db ea max c h =
      let count = count_same I P max db (I.get_byte db ea) ea in
      ground (arith, outside_code-cases db ea count c (I.get_func db ea))

  count_cave_bytes-le :
      (db : I.Database) (ea max c : ℕ) → count_cave_bytes I P db ea max ≡ some c → c ≤ max
  count_cave_bytes-le db ea max c h =
      ground
        (arith, count_cave_bytes-cases db ea max c h, count_same-le max db (I.get_byte db ea) ea)

  -- The place is a run of one padding byte that no zone overlaps.
  abbrev pub IsCave : I.Database → List NoGoZone → ℕ → ℕ → Type 0
  IsCave db zones needed a =
      (is_no_go_range a (add64 a needed) zones ≡ false)
      × (is_padding_byte P (I.get_byte db a) ≡ true)
      × ((i : ℕ) → i < needed → I.get_byte db ((a + i) % word) ≡ I.get_byte db a)

  full-IsCave :
      (db : I.Database) (zones : List NoGoZone) (needed a c : ℕ)
      → 0 < needed
      → a < word
      → count_cave_bytes I P db a needed ≡ some c
      → leb needed c ≡ true
      → is_in_no_go_zone I P zones a needed ≡ false
      → IsCave db zones needed a
  full-IsCave db zones needed a c n w h l z =
      let most = count_same-le needed db (I.get_byte db a) a in
      let run = count_cave_bytes-cases db a needed c h in
      (z, ground arith, λ i k. count_same-full needed db (I.get_byte db a) a i w (ground arith) k)

  -- A scan that has an answer, and what the answer is worth.
  abbrev Scans : I.Database → List NoGoZone → ℕ → ℕ → ℕ → Option (Option ℕ) → Type 0
  Scans db zones needed current end o =
      (r : Option ℕ) × (o ≡ some r)
      × ((a : ℕ) → r ≡ some a → (current ≤ a) × (a < end) × IsCave db zones needed a)

  has_code_total :
      (n : ℕ) (db : I.Database) (ea limit : ℕ)
      → limit - ea < n
      → (b : Bool) × (has_code I P n db ea limit ≡ some b)
  unfolding has_code
  has_code_total zero db ea limit h = absurd (omega arith)
  has_code_total (suc n) db ea limit h = elim (Bool-cases (ltb ea limit)) [
    | inr out ↦ (false, ground arith)
    | inl inside ↦ elim (Bool-cases (I.is_code db ea)) [
      | inl coded ↦ (true, ground arith)
      | inr plain ↦ elim (Bool-cases (I.next_head db ea limit == badaddr)) [
        | inl last ↦ (false, ground arith)
        | inr more ↦
            let further = I.next_head-lt db ea limit in
            let (b, e) = has_code_total n db (I.next_head db ea limit) limit (ground arith) in
            (b, ground arith)
      ]
    ]
  ]

  outside_code_total :
      (db : I.Database) (ea count : ℕ) (f : Option (ℕ × ℕ))
      → (c : ℕ) × (outside_code I P db ea count f ≡ some c)
  unfolding outside_code
  outside_code_total db ea count none = (count, refl)
  outside_code_total db ea count (some (start, end)) =
      let top = add64 ea count in
      let near : top - ea < suc count = unfold add64 in omega arith in
      let (b, e) = has_code_total (suc count) db ea top near in
      elim (Bool-cases (leb start ea && ltb ea end)) [
        | inr off ↦ (count, ground arith)
        | inl in_function ↦ elim (Bool-cases (ltb end top)) [
          | inl over ↦ (0, ground arith)
          | inr room ↦ elim (Bool-cases b) [
            | inl t ↦ (0, ground arith)
            | inr f ↦ (count, ground arith)
          ]
        ]
      ]

  count_cave_bytes_total :
      (db : I.Database) (ea max : ℕ) → (c : ℕ) × (count_cave_bytes I P db ea max ≡ some c)
  unfolding count_cave_bytes
  count_cave_bytes_total db ea max =
      let count = count_same I P max db (I.get_byte db ea) ea in
      let (c, e) = outside_code_total db ea count (I.get_func db ea) in
      elim (Bool-cases (is_padding_byte P (I.get_byte db ea))) [
        | inr off ↦ (0, ground arith)
        | inl padding ↦ elim (Bool-cases (count == 0)) [
          | inl z ↦ (0, ground arith)
          | inr p ↦ (c, ground arith)
        ]
      ]

  scan_segment-Scans :
      (n : ℕ) (db : I.Database) (zones : List NoGoZone) (needed current end : ℕ)
      → 0 < needed
      → end + needed < word
      → end - current < n
      → Scans db zones needed current end (scan_segment I P n db zones needed current end)
  unfolding scan_segment
  scan_segment-Scans zero db zones needed current end p w h = absurd (omega arith)
  scan_segment-Scans (suc n) db zones needed current end p w h =
      let (c, e) = count_cave_bytes_total db current needed in
      let most = count_cave_bytes-le db current needed c e in
      elim (Bool-cases (ltb current end)) [
        | inr done ↦ (none, ground arith, λ a k. cc)
        | inl inside ↦ elim (Bool-cases (leb needed c)) [
          | inl full ↦ elim (Bool-cases (is_in_no_go_zone I P zones current needed)) [
            | inl zone ↦
                let step = add64_small current needed (ground arith) in
                let (r, f, found) =
                  scan_segment-Scans n db zones needed (add64 current needed) end p w
                    (ground arith) in
                (r, ground arith, λ a k. let g = found a k in (omega arith, g.1, g.2))
            | inr free ↦ (
              some current,
              ground arith,
              λ a k.
                  let same : current ≡ a = ground arith in
                  subst (λ x. (current ≤ x) × (x < end) × IsCave db zones needed x) same
                    (
                      omega arith,
                      ground arith,
                      full-IsCave db zones needed current c p (ground arith) e full free,
                    ),
            )
          ]
          | inr short ↦
              let jump = if ltb 0 c then c else 1 in
              let bounds : (0 < jump) × (jump ≤ needed) = ground arith in
              let step = add64_small current jump (ground (arith, bounds)) in
              let (r, f, found) =
                scan_segment-Scans n db zones needed (add64 current jump) end p w
                  (ground (arith, bounds)) in
              (r, ground arith, λ a k. let g = found a k in (omega (arith, bounds), g.1, g.2))
        ]
      ]

  -- A segment of executable code that has the place.
  abbrev pub HasCode : ℕ → Segment → Type 0
  HasCode a s = (s.is_code ≡ true) × (s.is_exec ≡ true) × (s.start_ea ≤ a) × (a < s.end_ea)

  scan_segments_lem :
      (db : I.Database) (zones : List NoGoZone) (needed : ℕ) (ss : List Segment)
      → 0 < needed
      → All (λ s. s.end_ea + needed < word) ss
      → (r : Option ℕ) × (scan_segments I P db zones needed ss ≡ some r)
        × ((a : ℕ) → r ≡ some a → Any (HasCode a) ss × IsCave db zones needed a)
  unfolding scan_segments
  scan_segments_lem db zones needed [] p w = (none, refl, λ a k. cc)
  scan_segments_lem db zones needed (s ∷ ss) p w =
      let (q, f, later) = scan_segments_lem db zones needed ss p w.1 in
      elim (Bool-cases (s.is_code && s.is_exec)) [
        | inr skipped ↦ (q, ground arith, λ a k. (inr (later a k).0, (later a k).1))
        | inl code ↦
            let (r, e, found) =
              scan_segment-Scans (suc (s.end_ea - s.start_ea)) db zones needed s.start_ea s.end_ea p
                w.0 (omega arith) in
            elim (Option-cases r) [
              | inl n ↦ (q, ground arith, λ a k. (inr (later a k).0, (later a k).1))
              | inr (b, y) ↦ (
                some b,
                ground arith,
                λ a k. let g = found a (y ∙ k) in (inl (ground arith, ground arith, g.0, g.1), g.2),
              )
            ]
      ]

  -- Where no segment ends so near the top of the address space that the code would wrap there, the
  -- search for a cave always comes to an answer, for code that is not empty. A cave that it finds is
  -- of the size asked for, starts in a segment of executable code, overlaps none of the zones that
  -- were set, and is one padding byte of the platform throughout.
  pub find_code_cave_lem :
      (db : I.Database) (zones : List NoGoZone) (needed : ℕ)
      → 0 < needed
      → All (λ s. s.end_ea + needed < word) (I.segments db)
      → (r : Option CodeCave) × (find_code_cave I P db zones needed ≡ some r)
        × ((c : CodeCave)
            → r ≡ some c
            → (c.size ≡ needed)
              × Any (HasCode c.address) (I.segments db)
              × IsCave db zones needed c.address)
  unfolding find_code_cave
  find_code_cave_lem db zones needed p w =
      let (r, e, found) = scan_segments_lem db zones needed (I.segments db) p w in
      elim (Option-cases r) [
        | inl n ↦ (none, ground arith, λ c k. cc)
        | inr (a, y) ↦ (
          some (record { address = a; size = needed; file_offset = I.get_fileregion_offset db a }),
          ground arith,
          λ c k.
              let g = found a y in
              let same : a ≡ c.address = ground arith in
              (
                ground arith,
                subst (λ x. Any (HasCode x) (I.segments db)) same g.0,
                subst (IsCave db zones needed) same g.1,
              ),
        )
      ]
