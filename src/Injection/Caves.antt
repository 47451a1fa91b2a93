-- ===== src/Injection/Caves.antt =====
-- Code caves of patching/code_injection_manager.cpp: runs of one padding byte in executable segments.
use ida_swarm.Base.{
  ℕ, zero, suc, ◌-◌, List, [], ◌∷◌, Option, none, some, Bool, true, false, ◌&&◌, ltb, leb, ◌==◌,
  add64, if◌then◌else◌,
}
use ida_swarm.NoGo.{NoGoZone, badaddr, is_no_go_range}
use ida_swarm.Injection.{Platform, Segment, Ida, CodeCave, is_padding_byte}

module _ (I : Ida) (P : Platform) where
  -- How many bytes from an address on, at most as many as the fuel, are the given byte.
  unfoldable pub count_same : ℕ → I.Database → ℕ → ℕ → ℕ
  count_same zero db first ea = 0
  count_same (suc n) db first ea =
      let rest = count_same n db first (add64 ea 1) in
      if I.get_byte db ea == first then suc rest else 0

  -- The loop over the heads up to a limit: whether one is code; `none` means that the fuel ran out.
  unfoldable pub has_code : ℕ → I.Database → ℕ → ℕ → Option Bool
  has_code zero db ea limit = none
  has_code (suc n) db ea limit = elim (ltb ea limit) [
    | false ↦ some false
    | true ↦ elim (I.is_code db ea) [
      | true ↦ some true
      | false ↦ elim (I.next_head db ea limit == badaddr) [
        | true ↦ some false
        | false ↦ has_code n db (I.next_head db ea limit) limit
      ]
    ]
  ]

  -- The test of a run that starts inside a function; a head is at least one byte on, so the length
  -- of the run and one more is enough fuel.
  unfoldable pub outside_code : I.Database → ℕ → ℕ → Option (ℕ × ℕ) → Option ℕ
  outside_code db ea count none = some count
  outside_code db ea count (some (start, end)) = elim (leb start ea && ltb ea end) [
    | false ↦ some count
    | true ↦ elim (ltb end (add64 ea count)) [
      | true ↦ some 0
      | false ↦ elim (has_code (suc count) db ea (add64 ea count)) [
        | none ↦ none
        | some true ↦ some 0
        | some false ↦ some count
      ]
    ]
  ]

  unfoldable pub count_cave_bytes : I.Database → ℕ → ℕ → Option ℕ
  count_cave_bytes db ea max_size = elim (is_padding_byte P (I.get_byte db ea)) [
    | false ↦ some 0
    | true ↦
        let count = count_same max_size db (I.get_byte db ea) ea in
        elim (count == 0) [ true ↦ some 0 | false ↦ outside_code db ea count (I.get_func db ea) ]
  ]

  -- The same test as the no-go manager makes, on the zones that were set.
  abbrev pub is_in_no_go_zone : List NoGoZone → ℕ → ℕ → Bool
  is_in_no_go_zone zones ea size = is_no_go_range ea (add64 ea size) zones

  -- The scan of a segment from `current`: where the cave is, if there is one; `none` means that the
  -- fuel ran out.
  unfoldable pub scan_segment : ℕ → I.Database → List NoGoZone → ℕ → ℕ → ℕ → Option (Option ℕ)
  scan_segment zero db zones needed current end = none
  scan_segment (suc n) db zones needed current end = elim (ltb current end) [
    | false ↦ some none
    | true ↦ elim (count_cave_bytes db current needed) [
      | none ↦ none
      | some count ↦ elim (leb needed count) [
        | true ↦ elim (is_in_no_go_zone zones current needed) [
          | true ↦ scan_segment n db zones needed (add64 current needed) end
          | false ↦ some (some current)
        ]
        | false ↦
            scan_segment n db zones needed (add64 current (if ltb 0 count then count else 1)) end
      ]
    ]
  ]

  -- The loop over the segments; a scan goes on by a byte or more, so one round for each byte of a
  -- segment and one more is enough.
  unfoldable pub scan_segments : I.Database → List NoGoZone → ℕ → List Segment → Option (Option ℕ)
  scan_segments db zones needed [] = some none
  scan_segments db zones needed (s ∷ ss) = elim (s.is_code && s.is_exec) [
    | false ↦ scan_segments db zones needed ss
    | true ↦ elim (scan_segment (suc (s.end_ea - s.start_ea)) db zones needed s.start_ea s.end_ea) [
      | none ↦ none
      | some none ↦ scan_segments db zones needed ss
      | some (some a) ↦ some (some a)
    ]
  ]

  -- The cave, if there is one.
  unfoldable pub find_code_cave : I.Database → List NoGoZone → ℕ → Option (Option CodeCave)
  find_code_cave db zones needed = elim (scan_segments db zones needed (I.segments db)) [
    | none ↦ none
    | some none ↦ some none
    | some (some a) ↦
        some
          (some (record { address = a; size = needed; file_offset = I.get_fileregion_offset db a }))
  ]
