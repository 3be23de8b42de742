-- ===== src/Boot/Image.antt =====
-- boot/bootmain.c: `bootmain` loads the kernel that the multiboot header describes.
use mathlib.Core.Path.{subst}
use rt.Prelude.{
  ℕ, ◌+◌, ◌-◌, ◌*◌, ◌%◌, ◌^◌, ◌<◌, ◌≤◌, ◌≡◌, ◌≢◌, refl, sym, ap, ◌∙◌, true, false, inl, inr, Option,
  none, some, ◌==◌, arith, ltb, bit_and, Bool-cases,
}
use rt.Prelude.Run.{Outcome, Returns, returns, bind, ◌>>=◌, ◌>>◌, pure, gets}
use rt.Memory.{Mem}
use rt.Memory.Laws.{SameOn}
use rt.Str.{stosb}
use rt.Str.Fill.{IsFilled, stosb-IsFilled}
use rt.Boot.{
  Drive, Loader, scratch, word, is_header, find_header, flags, header_addr, load_addr,
  load_end_addr, bss_end_addr, entry_addr, readseg, clear_bss, load_image, after_search, bootmain,
}
use rt.Boot.Disk.{IsAta, IsPrompt}
use rt.Boot.Segment.{IsSegment, readseg-IsSegment}
use rt.Boot.Header.{find_first, find_none, word_ext, is_header_ext, no_magic}

-- The image, which starts at sector 1, where `bootmain` first reads it to.
abbrev pub image : (ℕ → ℕ) → Mem
image disk b = disk (512 + (b - scratch)) % 256

-- A header within the first 8192 bytes, and the first one, with addresses that fit in 32-bit words
-- and leave the 8192 bytes and the header alone.
pub record IsBootable (m : Mem) (n : ℕ) : Type 0 where
  pub within : n + 8 ≤ 2048
  pub header : is_header m n ≡ true
  pub first : (j : ℕ) → j < n → is_header m j ≡ false
  pub has_addresses : bit_and (flags m n) 0x10000 ≢ 0
  pub load_before_header : load_addr m n ≤ header_addr m n
  pub header_offset : header_addr m n - load_addr m n ≤ n * 4
  pub load_before_end : load_addr m n ≤ load_end_addr m n
  pub end_in_word : load_end_addr m n + 512 ≤ 2 ^ 32
  pub above_scratch : scratch + 8192 + 512 ≤ load_addr m n

-- The image from the byte for `load_addr` up to the one for `load_end_addr` is at those addresses, and
-- the memory from there up to `bss_end_addr` is zero.
pub record IsKernel (disk : ℕ → ℕ) (n : ℕ) (s : Loader) : Type 0 where
  pub loaded :
      (i : ℕ)
      → load_addr (image disk) n + i < load_end_addr (image disk) n
      → s.mem (load_addr (image disk) n + i)
        ≡ image disk (scratch + 4 * n - (header_addr (image disk) n - load_addr (image disk) n) + i)
  pub cleared :
      (b : ℕ) → load_end_addr (image disk) n ≤ b → b < bss_end_addr (image disk) n → s.mem b ≡ 0

-- Where the image's first loaded byte is.
abbrev start : Mem → ℕ → ℕ
start m n = n * 4 - (header_addr m n - load_addr m n)

-- The fields of one header in two memories.
record SameHeader (m m' : Mem) (n : ℕ) : Type 0 where
  flags_eq : flags m n ≡ flags m' n
  header_eq : header_addr m n ≡ header_addr m' n
  load_eq : load_addr m n ≡ load_addr m' n
  end_eq : load_end_addr m n ≡ load_end_addr m' n
  bss_eq : bss_end_addr m n ≡ bss_end_addr m' n
  entry_eq : entry_addr m n ≡ entry_addr m' n

same_header : (m m' : Mem) (n : ℕ) → SameOn (scratch + 4 * n) 32 m m' → SameHeader m m' n
same_header m m' n h =
    let at : (k : ℕ) → k < 8 → word m (n + k) ≡ word m' (n + k) =
      λ k l. word_ext m m' (n + k) (λ b p q. h b (omega arith) (omega arith)) in
    record {
      flags_eq = at 1 (omega arith);
      header_eq = at 3 (omega arith);
      load_eq = at 4 (omega arith);
      end_eq = at 5 (omega arith);
      bss_eq = at 6 (omega arith);
      entry_eq = at 7 (omega arith);
    }

clear_goes :
    (n : ℕ) (s : Loader)
    → ltb (load_end_addr s.mem n) (bss_end_addr s.mem n) ≡ true
    → clear_bss n s
      ≡ Outcome.done tt (record s {
        mem = stosb s.mem (load_end_addr s.mem n) 0 (bss_end_addr s.mem n - load_end_addr s.mem n);
      })
unfolding clear_bss
clear_goes n s e = rw (e) refl

clear_skips :
    (n : ℕ) (s : Loader)
    → ltb (load_end_addr s.mem n) (bss_end_addr s.mem n) ≡ false
    → clear_bss n s ≡ Outcome.done tt s
unfolding clear_bss
clear_skips n s e = rw (e) refl

-- `clear_bss` writes zeros between the two addresses, and nothing else.
clear_bss_lem :
    (n : ℕ) (s : Loader)
    → Returns
        (λ _ s'.
          IsFilled s.mem
            (load_end_addr s.mem n)
            (bss_end_addr s.mem n - load_end_addr s.mem n)
            0
            s'.mem)
        (clear_bss n s)
unfolding clear_bss
clear_bss_lem n s = elim (Bool-cases (ltb (load_end_addr s.mem n) (bss_end_addr s.mem n))) [
  | inl e ↦ subst (Returns _) (sym (clear_goes n s e)) (
      returns (
        stosb-IsFilled (bss_end_addr s.mem n - load_end_addr s.mem n) s.mem (load_end_addr s.mem n)
          0))
  | inr e ↦
      subst (Returns _) (sym (clear_skips n s e))
        (returns record { inside = λ b p q. absurd (ground arith); outside = λ b h. refl })
]

module _ (d : Drive) (fuel : ℕ) (m : Mem) (n : ℕ) (ok : IsBootable m n) where
  -- A state whose copy of the header is that of `m` passes the tests.
  load_image-eq :
      (s : Loader)
      → SameHeader s.mem m n
      → load_image d fuel n s
        ≡ (readseg d fuel (load_addr m n) (load_end_addr m n - load_addr m n) (start m n)
              >> (clear_bss n >> (gets (λ s'. entry_addr s'.mem n) >>= λ entry. pure (some entry))))
            s
  unfolding load_image
  load_image-eq s h =
      let a : (bit_and (flags m n) 0x10000 == 0) ≡ false = ground (arith, ok.has_addresses) in
      let b : ltb (header_addr m n) (load_addr m n) ≡ false =
        ground (arith, ok.load_before_header) in
      let c : ltb (load_end_addr m n) (load_addr m n) ≡ false =
        ground (arith, ok.load_before_end) in
      let e : (n * 4 + 2 ^ 32 - (header_addr m n - load_addr m n)) % 2 ^ 32 ≡ start m n =
        ground (arith, ok.header_offset, ok.within) in
      rw (h.flags_eq, h.header_eq, h.load_eq, h.end_eq, a, b, c, e) refl

module _ (d : Drive) (fuel : ℕ) (disk : ℕ → ℕ) (n : ℕ) (ok : IsBootable (image disk) n) where
  abbrev Agrees : Loader → Type 0
  Agrees s = SameOn scratch 8192 s.mem (image disk)

  header_of : (s : Loader) → Agrees s → SameHeader s.mem (image disk) n
  header_of s h =
      same_header s.mem (image disk) n (λ b p q. h b (omega arith) (omega (arith, ok.within)))

  -- The state after the image is in memory, and that after the clearing.
  image-IsKernel :
      (s s1 s2 : Loader)
      → Agrees s
      → IsSegment disk
          (load_addr (image disk) n)
          (load_end_addr (image disk) n - load_addr (image disk) n)
          (start (image disk) n)
          s
          s1
      → IsFilled s1.mem
          (load_end_addr s1.mem n)
          (bss_end_addr s1.mem n - load_end_addr s1.mem n)
          0
          s2.mem
      → (entry_addr s2.mem n ≡ entry_addr (image disk) n) × IsKernel disk n s2
  image-IsKernel s s1 s2 h seg fill =
      let agrees1 : Agrees s1 = λ b p q. seg.rest b (omega (arith, ok.above_scratch)) ∙ h b p q in
      let h1 = header_of s1 agrees1 in
      let above = ok.above_scratch in
      let within = ok.within in
      let agrees2 : Agrees s2 =
        λ b p q. fill.outside b (omega (arith, h1.end_eq, ok.load_before_end)) ∙ agrees1 b p q in
      (
        (header_of s2 agrees2).entry_eq,
        record {
          loaded = λ i l.
              fill.outside (load_addr (image disk) n + i) (omega (arith, h1.end_eq))
              ∙ seg.bytes i (omega arith)
              ∙ ap (λ k. disk k % 256) (omega (arith, ok.header_offset));
          cleared = λ b p q.
              fill.inside b (omega (arith, h1.end_eq)) (omega (arith, h1.end_eq, h1.bss_eq));
        },
      )

module _ (d : Drive) (disk : ℕ → ℕ) (ata : IsAta d disk) (fuel : ℕ) (prompt : IsPrompt d fuel) where
  load_image_runs :
      (n : ℕ) (s : Loader)
      → IsBootable (image disk) n
      → SameOn scratch 8192 s.mem (image disk)
      → Returns
          (λ r s'. (r ≡ some (entry_addr (image disk) n)) × IsKernel disk n s')
          (load_image d fuel n s)
  load_image_runs n s ok h =
      subst (Returns _)
        (sym (load_image-eq d fuel (image disk) n ok s (header_of d fuel disk n ok s h)))
        (bind
          (readseg-IsSegment d fuel disk ata prompt s (load_addr (image disk) n)
            (load_end_addr (image disk) n - load_addr (image disk) n) (start (image disk) n)
            (omega (arith, ok.above_scratch)) (omega (arith, ok.load_before_end, ok.end_in_word))
            (omega (arith, ok.within)))
          λ _ s1 seg. bind (clear_bss_lem n s1) λ _ s2 fill.
            let k = image-IsKernel d fuel disk n ok s s1 s2 h seg fill in
            returns (ap some k.0, k.1))

  -- The state in which the search starts has the image's first bytes.
  read_first :
      {Q : Option ℕ → Loader → Type 0} (s : Loader)
      → ((s1 : Loader)
          → SameOn scratch 8192 s1.mem (image disk)
          → Returns Q (after_search d fuel (find_header s1.mem 2048 0) s1))
      → Returns Q (bootmain d fuel s)
  unfolding bootmain
  read_first s next =
      bind
        (readseg-IsSegment d fuel disk ata prompt s scratch 8192 0 (omega arith) (omega arith)
          (omega arith))
        λ _ s1 seg. next s1 (λ b p q.
          ap s1.mem (omega arith)
          ∙ seg.bytes (b - scratch) (omega arith)
          ∙ ap (λ k. disk k % 256) (omega arith))

  -- From an ATA drive that reports ready within `fuel` reads at any time, whose image has a
  -- multiboot header with a load address in its first 8192 bytes, with word `n` as the first such
  -- header and addresses that are ordered, fit 32-bit words and lie above the scratch space,
  -- `bootmain` ends. It returns the header's entry address; the image's bytes stand from
  -- `load_addr` up to `load_end_addr`, and the bytes from there up to `bss_end_addr` are zero.
  pub bootmain-IsKernel :
      (n : ℕ) (s : Loader)
      → IsBootable (image disk) n
      → Returns
          (λ r s'. (r ≡ some (entry_addr (image disk) n)) × IsKernel disk n s')
          (bootmain d fuel s)
  unfolding after_search
  bootmain-IsKernel n s ok = read_first s λ s1 h.
      let same : (j : ℕ) → j ≤ n → is_header s1.mem j ≡ is_header (image disk) j = λ j l.
        is_header_ext s1.mem (image disk) j
          (λ b p q. h b (omega arith) (omega (arith, ok.within))) in
      let first : find_header s1.mem 2048 0 ≡ some (0 + n) =
        find_first s1.mem n 2048 0 (omega (arith, ok.within))
          (same (0 + n) (omega arith) ∙ ap (is_header (image disk)) (omega arith) ∙ ok.header)
          (λ j l. same j (omega arith) ∙ ok.first j (omega arith)) in
      subst
        (λ o.
          Returns (λ r s'. (r ≡ some (entry_addr (image disk) n)) × IsKernel disk n s')
            (after_search d fuel o s1))
        (sym (first ∙ ap some (omega arith))) (load_image_runs n s1 ok h)

  -- From an ATA drive that reports ready within `fuel` reads at any time, whose image has the
  -- magic number in none of its first 2048 words, `bootmain` ends and returns without an entry
  -- address.
  pub bootmain_no_header :
      (s : Loader)
      → ((j : ℕ) → j < 2048 → word (image disk) j ≢ 0x1BADB002)
      → Returns (λ r _. r ≡ none) (bootmain d fuel s)
  unfolding after_search
  bootmain_no_header s no_header = read_first s λ s1 h.
      let nowhere : find_header s1.mem 2048 0 ≡ none = find_none s1.mem 2048 0 λ j p q.
        no_magic s1.mem j λ e.
          no_header j (omega arith) (
            sym (word_ext s1.mem (image disk) j (λ b p' q'. h b (omega arith) (omega arith)))
            ∙ e) in
      subst (λ o. Returns (λ r _. r ≡ none) (after_search d fuel o s1)) (sym nowhere) (returns refl)
