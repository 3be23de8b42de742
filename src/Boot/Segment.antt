-- ===== src/Boot/Segment.antt =====
-- boot/bootmain.c: `readseg` brings a run of bytes of the drive into memory, sector by sector.
use mathlib.Core.Path.{subst}
use native.Mathlib.Decide.{dec_lt}
use rt.Prelude.{
  ℕ, zero, suc, ◌+◌, ◌-◌, ◌*◌, ◌/◌, ◌%◌, ◌^◌, ◌<◌, ◌≤◌, ◌≡◌, refl, sym, ap, ◌∙◌, ltb, true, false,
  ◌⊎◌, inl, inr, arith, tests, Bool-cases,
}
use rt.Prelude.Run.{Outcome, Returns, returns, bind, mono, ◌>>◌}
use rt.Boot.{Drive, Loader, readsect, seg_loop, readseg, sectsize}
use rt.Boot.Disk.{IsAta, IsPrompt, IsRead, readsect-IsRead}

-- The bytes from `pa` up to `epa` are those of the drive from sector `sector` on; below `pa`, and
-- from the end of the last sector on, memory is as it was.
record Sectors (disk : ℕ → ℕ) (pa epa sector : ℕ) (s s' : Loader) : Type 0 where
  bytes : (b : ℕ) → pa ≤ b → b < epa → s'.mem b ≡ disk (512 * sector + (b - pa)) % 256
  rest : (b : ℕ) → (b < pa) ⊎ (epa + 511 ≤ b) → s'.mem b ≡ s.mem b

-- The `count` bytes from `pa` are those of the image from `offset` on, which starts at sector 1.
pub record IsSegment (disk : ℕ → ℕ) (pa count offset : ℕ) (s s' : Loader) : Type 0 where
  pub bytes : (i : ℕ) → i < count → s'.mem (pa + i) ≡ disk (512 + offset + i) % 256
  pub rest : (b : ℕ) → (b + offset % 512 < pa) ⊎ (pa + count + 511 ≤ b) → s'.mem b ≡ s.mem b

module _ (d : Drive) (fuel : ℕ) where
  seg_stops :
      (rounds pa epa sector : ℕ) (s : Loader)
      → epa ≤ pa
      → seg_loop d fuel (suc rounds) pa epa sector s ≡ Outcome.done tt s
  unfolding seg_loop
  seg_stops rounds pa epa sector s h = let a : ltb pa epa ≡ false = ground arith in rw (a) refl

  seg_goes :
      (rounds pa epa sector : ℕ)
      → pa < epa
      → epa + 512 ≤ 2 ^ 32
      → sector < 2 ^ 28
      → seg_loop d fuel (suc rounds) pa epa sector
        ≡ (readsect d fuel pa sector >> seg_loop d fuel rounds (pa + 512) epa (sector + 1))
  unfolding seg_loop
  seg_goes rounds pa epa sector h k l =
      let a : ltb pa epa ≡ true = ground arith in
      let p : (pa + sectsize) % 2 ^ 32 ≡ pa + 512 = ground arith in
      let q : (sector + 1) % 2 ^ 32 ≡ sector + 1 = ground arith in rw (a, p, q) refl

-- One sector, and then those after it.
joined :
    (d : Drive) (disk : ℕ → ℕ) (pa epa sector : ℕ) (s s1 s2 : Loader)
    → pa < epa
    → IsRead d disk pa sector s s1
    → Sectors disk (pa + 512) epa (sector + 1) s1 s2
    → Sectors disk pa epa sector s s2
joined d disk pa epa sector s s1 s2 h r t = record {
  bytes = λ b p q. elim (dec_lt b (pa + 512)) [
    | yes u ↦ t.rest b (inl u) ∙ ap s1.mem (omega arith) ∙ r.bytes (b - pa) (omega arith)
    | no u ↦ t.bytes b (omega arith) q ∙ ap (λ n. disk n % 256) (omega arith)
  ];
  rest = λ b o. t.rest b (omega arith) ∙ r.rest b (omega arith);
}

module _ (d : Drive) (fuel : ℕ) (disk : ℕ → ℕ) (ata : IsAta d disk) (prompt : IsPrompt d fuel) where
  seg_loop_lem :
      (rounds pa epa sector : ℕ) (s : Loader)
      → 1 ≤ rounds
      → epa + 512 ≤ 2 ^ 32
      → sector + rounds ≤ 2 ^ 28
      → epa + 512 ≤ pa + 512 * rounds
      → Returns (λ _ s'. Sectors disk pa epa sector s s') (seg_loop d fuel rounds pa epa sector s)
  seg_loop_lem zero pa epa sector s n h k l = absurd (omega arith)
  seg_loop_lem (suc rounds) pa epa sector s n h k l = elim (Bool-cases (ltb pa epa)) [
    | inr e ↦
        subst (Returns (λ _ s'. Sectors disk pa epa sector s s'))
          (sym (seg_stops d fuel rounds pa epa sector s (ground arith)))
          (returns (record { bytes = λ b p q. absurd (ground arith); rest = λ b o. refl }))
    | inl e ↦
        subst
          (λ (c : Loader → Outcome Loader (Unit {0})).
            Returns (λ _ s'. Sectors disk pa epa sector s s') (c s))
          (sym (seg_goes d fuel rounds pa epa sector (omega tests) h (omega arith)))
          (bind (readsect-IsRead d disk ata fuel s pa sector prompt (omega arith)) λ _ s1 r.
            mono
              (seg_loop_lem rounds (pa + 512) epa (sector + 1) s1 (ground arith) h (omega arith)
                (omega arith))
              λ _ s2 t. joined d disk pa epa sector s s1 s2 (ground arith) r t)
  ]

  -- From an ATA drive that reports ready within `fuel` reads at any time, and with the whole
  -- transfer inside the 32-bit address space, `readseg` ends; the `count` bytes from `pa` are
  -- then those of the image from `offset` on, and memory below the sector boundary or 511 bytes
  -- and more behind the end is as it was.
  pub readseg-IsSegment :
      (s : Loader) (pa count offset : ℕ)
      → offset % 512 ≤ pa
      → pa + count + 512 ≤ 2 ^ 32
      → offset < 2 ^ 32
      → Returns (λ _ s'. IsSegment disk pa count offset s s') (readseg d fuel pa count offset s)
  unfolding readseg
  readseg-IsSegment s pa count offset h k l =
      let p : (pa + 2 ^ 32 - offset % sectsize) % 2 ^ 32 ≡ pa - offset % 512 = ground arith in
      let q : (pa + count) % 2 ^ 32 ≡ pa + count = ground arith in
      subst
        (λ n.
          Returns (λ _ s'. IsSegment disk pa count offset s s')
            (seg_loop d fuel (count / 512 + 3) n ((pa + count) % 2 ^ 32) (offset / 512 + 1) s))
        (sym p)
        (subst
          (λ n.
            Returns (λ _ s'. IsSegment disk pa count offset s s')
              (seg_loop d fuel (count / 512 + 3) (pa - offset % 512) n (offset / 512 + 1) s))
          (sym q)
          (mono
            (seg_loop_lem (count / 512 + 3) (pa - offset % 512) (pa + count) (offset / 512 + 1) s
              (omega arith) k (omega arith) (omega arith))
            λ _ s' t. record {
              bytes = λ i b.
                  t.bytes (pa + i) (omega arith) (omega arith)
                  ∙ ap (λ n. disk n % 256) (ground arith);
              rest = λ b o. t.rest b (omega arith);
            }))
