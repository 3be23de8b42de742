-- ===== src/Boot/Disk.antt =====
-- boot/bootmain.c: the wait for the drive and the read of one sector.
use mathlib.Core.Path.{subst}
use rt.Prelude.{
  ℕ, zero, suc, ◌+◌, ◌-◌, ◌*◌, ◌/◌, ◌%◌, ◌^◌, ◌<◌, ◌≡◌, refl, sym, ap, bit_or, ◌∙◌, true, false,
  inl, inr, arith, Bool-cases,
}
use rt.Prelude.Run.{Outcome, Returns, returns, bind, mono}
use rt.Bits.{bit_or_digit}
use rt.Memory.{Mem, write}
use rt.Memory.Laws.{SameBut, write_self, write_ne}
use rt.Boot.{Drive, Loader, outb, copy_in, insl, is_ready, waitdisk, ask, readsect, sectsize}

-- From every point on the drive reports ready within `fuel` reads of its status.
abbrev pub IsPrompt : Drive → ℕ → Type 0
IsPrompt d fuel = (n : ℕ) → (k : ℕ) × ((k < fuel) × (is_ready (d.status (n + k)) ≡ true))

-- The sector number in the drive's registers: 28 bits.
abbrev pub lba : (ℕ → ℕ) → ℕ
lba ports = ports 0x1F3 + 2 ^ 8 * ports 0x1F4 + 2 ^ 16 * ports 0x1F5 + 2 ^ 24 * (ports 0x1F6 % 16)

-- What an ATA drive does: asked by command 0x20 for one sector, in LBA mode, it delivers the bytes of
-- that sector of its contents `disk`.
abbrev pub IsAta : Drive → (ℕ → ℕ) → Type 0
IsAta d disk =
    (ports : ℕ → ℕ) (i : ℕ)
    → ports 0x1F2 ≡ 1
    → ports 0x1F6 / 16 ≡ 14
    → ports 0x1F7 ≡ 0x20
    → i < 512
    → d.sector ports i ≡ disk (512 * lba ports + i)

-- The wait read the status at least once, last found it ready, and did nothing else.
abbrev pub Waited : Drive → Loader → Loader → Type 0
Waited d s s' =
    (s'.mem ≡ s.mem)
    × (s'.ports ≡ s.ports)
    × (s.reads < s'.reads)
    × (is_ready (d.status (s'.reads - 1)) ≡ true)

module _ (d : Drive) where
  waitdisk-ready :
      (fuel : ℕ) (s : Loader)
      → is_ready (d.status s.reads) ≡ true
      → waitdisk d (suc fuel) s ≡ Outcome.done tt (record s { reads = s.reads + 1 })
  unfolding waitdisk
  waitdisk-ready fuel s h = rw (h) refl

  waitdisk-again :
      (fuel : ℕ) (s : Loader)
      → is_ready (d.status s.reads) ≡ false
      → waitdisk d (suc fuel) s ≡ waitdisk d fuel (record s { reads = s.reads + 1 })
  unfolding waitdisk
  waitdisk-again fuel s h = rw (h) refl

  abbrev Goes : Loader → ℕ → Type 0
  Goes s fuel = Returns (λ _ s'. Waited d s s') (waitdisk d fuel s)

  wait_more :
      (fuel : ℕ) (s : Loader)
      → is_ready (d.status s.reads) ≡ false
      → Goes (record s { reads = s.reads + 1 }) fuel
      → Goes s (suc fuel)
  wait_more fuel s e h =
      subst (Returns (λ _ s'. Waited d s s')) (sym (waitdisk-again fuel s e))
        (mono h λ _ s' w. (w.0, w.1, omega (arith, w.2), w.3))

  waitdisk_within :
      (k fuel : ℕ) (s : Loader) → k < fuel → is_ready (d.status (s.reads + k)) ≡ true → Goes s fuel
  waitdisk_within k zero s h r = absurd (omega arith)
  waitdisk_within zero (suc fuel) s h r =
      subst (Returns (λ _ s'. Waited d s s')) (sym (waitdisk-ready fuel s (first r)))
        (returns (refl, refl, omega arith, ap (λ n. is_ready (d.status n)) (omega arith) ∙ r))
    where
      first : is_ready (d.status (s.reads + 0)) ≡ true → is_ready (d.status s.reads) ≡ true
      first r = ap (λ n. is_ready (d.status n)) (omega arith) ∙ r
  waitdisk_within (suc k) (suc fuel) s h r = elim (Bool-cases (is_ready (d.status s.reads))) [
    | inl e ↦
        subst (Returns (λ _ s'. Waited d s s')) (sym (waitdisk-ready fuel s e))
          (returns (refl, refl, omega arith, ap (λ n. is_ready (d.status n)) (omega arith) ∙ e))
    | inr e ↦ wait_more fuel s e (
        waitdisk_within k fuel (record s { reads = s.reads + 1 }) (omega arith)
          (ap (λ n. is_ready (d.status n)) (omega arith) ∙ r))
  ]

  pub waitdisk-IsReady :
      (fuel : ℕ) (s : Loader)
      → IsPrompt d fuel
      → Returns (λ _ s'. Waited d s s') (waitdisk d fuel s)
  waitdisk-IsReady fuel s h = waitdisk_within (h s.reads).0 fuel s (h s.reads).1.0 (h s.reads).1.1

-- Bytes that arrive, at their addresses, and what is left alone.
copy_in_frame : (src : ℕ → ℕ) (n i a : ℕ) (m : Mem) → SameBut a n m (copy_in src i n a m)
unfolding copy_in
copy_in_frame src zero i a m b h = refl
copy_in_frame src (suc n) i a m b h =
    copy_in_frame src n (suc i) (a + 1) (write m a (src i)) b (omega arith)
    ∙ write_ne m a (src i) b (omega arith)

copy_in_lem :
    (src : ℕ → ℕ) (n i a : ℕ) (m : Mem) (j : ℕ)
    → j < n
    → copy_in src i n a m (a + j) ≡ src (i + j) % 256
unfolding copy_in
copy_in_lem src zero i a m j h = absurd (omega arith)
copy_in_lem src (suc n) i a m zero h = ground (
  arith,
  copy_in_frame src n (suc i) (a + 1) (write m a (src i)) a (omega arith),
  write_self m a (src i),
)
copy_in_lem src (suc n) i a m (suc j) h =
    ground (arith, copy_in_lem src n (suc i) (a + 1) (write m a (src i)) j (omega arith))

lba_mode : (q : ℕ) → q < 16 → bit_or q 0xE0 ≡ 0xE0 + q
lba_mode q h = ground (
  arith,
  bit_or_digit q 0xE0,
  bit_or_digit (q / 2) 0x70,
  bit_or_digit (q / 4) 0x38,
  bit_or_digit (q / 8) 0x1C,
)

-- The registers hold the command: one sector, number `offset`, to be read.
record IsAsked (offset : ℕ) (ports : ℕ → ℕ) : Type 0 where
  count : ports 0x1F2 ≡ 1
  mode : ports 0x1F6 / 16 ≡ 14
  command : ports 0x1F7 ≡ 0x20
  number : lba ports ≡ offset

ask-IsAsked :
    (s : Loader) (offset : ℕ)
    → offset < 2 ^ 28
    → Returns
        (λ _ s'. (s'.mem ≡ s.mem) × (s'.reads ≡ s.reads) × IsAsked offset s'.ports)
        (ask offset s)
unfolding ask outb
ask-IsAsked s offset h = returns (
  refl,
  refl,
  record {
    count = refl;
    mode = omega (arith, lba_mode (offset / 2 ^ 24) (omega arith));
    command = refl;
    number = omega (arith, lba_mode (offset / 2 ^ 24) (omega arith));
  },
)

-- The sector is in memory, nothing else changed, and the drive was ready when the data was taken.
pub record IsRead (d : Drive) (disk : ℕ → ℕ) (dst offset : ℕ) (s s' : Loader) : Type 0 where
  pub bytes : (j : ℕ) → j < 512 → s'.mem (dst + j) ≡ disk (512 * offset + j) % 256
  pub rest : SameBut dst 512 s.mem s'.mem
  pub ready : is_ready (d.status (s'.reads - 1)) ≡ true

module _ (d : Drive) (disk : ℕ → ℕ) (ata : IsAta d disk) where
  insl-IsRead :
      (s : Loader) (dst offset : ℕ)
      → IsAsked offset s.ports
      → is_ready (d.status (s.reads - 1)) ≡ true
      → Returns (λ _ s'. IsRead d disk dst offset s s') (insl d dst (sectsize / 4) s)
  unfolding insl
  insl-IsRead s dst offset asked ready = returns (record {
    bytes = λ j h.
        copy_in_lem (d.sector s.ports) 512 0 dst s.mem j h
        ∙ ap (λ t. t % 256)
            (ap (d.sector s.ports) (omega arith)
              ∙ ata s.ports j asked.count asked.mode asked.command h
              ∙ ap (λ n. disk (512 * n + j)) asked.number);
    rest = copy_in_frame (d.sector s.ports) 512 0 dst s.mem;
    ready = ready;
  })

  pub readsect-IsRead :
      (fuel : ℕ) (s : Loader) (dst offset : ℕ)
      → IsPrompt d fuel
      → offset < 2 ^ 28
      → Returns (λ _ s'. IsRead d disk dst offset s s') (readsect d fuel dst offset s)
  unfolding readsect
  readsect-IsRead fuel s dst offset prompt h = bind (waitdisk-IsReady d fuel s prompt) λ _ s1 w1.
      bind (ask-IsAsked s1 offset h) λ _ s2 w2. bind (waitdisk-IsReady d fuel s2 prompt) λ _ s3 w3.
        mono (insl-IsRead s3 dst offset (subst (IsAsked offset) (sym w3.1) w2.2) w3.3) λ _ s' r.
          record {
            bytes = r.bytes;
            rest = λ b o. r.rest b o ∙ ap (λ (m : Mem). m b) (w3.0 ∙ w2.0 ∙ w1.0);
            ready = r.ready;
          }
