-- ===== src/Injection/Total.antt =====
-- The loops of a preview in patching/code_injection_manager.cpp come to an end.
use ida_swarm.Base.{
  ℕ, zero, suc, ◌-◌, ◌≡◌, ◌<◌, ◌⊎◌, inl, inr, refl, [], ◌∷◌, ◌++◌, codes, some, not, ◌&&◌, ◌||◌,
  Text, ltb, leb, ◌==◌, arith, Bool-cases,
}
use ida_swarm.NoGo.{badaddr}
use ida_swarm.Injection.{Platform, Ida, Manager}
use ida_swarm.Injection.Stages.{
  Result, failure, CodePreviewResult, line_of, disassemble, get_disassembly, preview_text,
  preview_code_injection, is_in_temp_workspace,
}

module _ (I : Ida) (P : Platform) where
  disassemble_total :
      (n : ℕ) (db : I.Database) (ea end : ℕ)
      → 0 < n
      → (ea ≡ badaddr) ⊎ (end - ea < n)
      → (t : Text) × (disassemble I P n db ea end ≡ some t)
  unfolding disassemble
  disassemble_total zero db ea end p h = absurd (omega arith)
  disassemble_total (suc n) db ea end p h = elim (Bool-cases (ltb ea end && not (ea == badaddr))) [
    | inr out ↦ ([], ground arith)
    | inl inside ↦
        let further = I.next_head-lt db ea end in
        let (t, e) =
          disassemble_total n db (I.next_head db ea end) end (ground arith) (ground arith) in
        (line_of I P ea (I.generate_disasm_line db ea) ++ t, ground arith)
  ]

  preview_text_total :
      (now s e : ℕ) (t : Text) (m : Manager I)
      → (r : Manager I × Result CodePreviewResult) × (preview_text I P now s e (some t) m ≡ some r)
  unfolding preview_text
  preview_text_total now s e [] m = (_, refl)
  preview_text_total now s e (c ∷ t) m = (_, refl)

  -- A preview always comes to a result, whatever the range and the state of the manager.
  pub preview_code_injection_total :
      (now start end : ℕ) (m : Manager I)
      → (r : Manager I × Result CodePreviewResult) × (preview_code_injection I P now start end m
          ≡ some r)
  unfolding preview_code_injection get_disassembly
  preview_code_injection_total now start end m =
      let db = I.auto_wait (I.plan_range m.database start end) in
      let (t, e) =
        disassemble_total (suc (end - start)) db start end (omega arith) (inr (omega arith)) in
      let (r, f) = preview_text_total now start end t (record m { database = db }) in
      let at = is_in_temp_workspace start m.active_workspaces in
      let up_to = is_in_temp_workspace (end - 1) m.active_workspaces in
      elim (Bool-cases (leb end start)) [
        | inl bad ↦ (
          (m, failure (codes "Invalid address range: start must be less than end")),
          ground arith,
        )
        | inr good ↦ elim (Bool-cases (not at || not up_to)) [
          | inl out ↦ (
            (m, failure (codes "Address range not entirely within a temporary workspace")),
            ground arith,
          )
          | inr inside ↦ (r, ground arith)
        ]
      ]
