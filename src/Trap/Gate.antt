-- ===== src/Trap/Gate.antt =====
-- kernel/trap.c: a gate that `mkgate` writes, as the processor reads it.
use mathlib.Core.Path.{subst}
use rt.Prelude.{
  ℕ, ◌+◌, ◌*◌, ◌/◌, ◌%◌, ◌^◌, ◌<◌, ◌≤◌, ◌≡◌, ◌⊎◌, refl, sym, ap, ◌∙◌, bit_and, bit_or, ◌==◌, arith,
  if◌then◌else◌,
}
use rt.Bits.{
  bit_and-low, bit_and-shifted, bit_or_fields, bit_or-shifted, bit_or_digit, bit_or-zero,
  bit_or_above,
}
use rt.Memory.{Mem, load32, store32}
use rt.Memory.Laws.{SameBut, load_ext, store_frame, load-store_self}
use rt.Trap.{mkgate}

abbrev pub gate_word : Mem → (idt n i : ℕ) → ℕ
gate_word m idt n i = load32 m (idt + 16 * n + 4 * i)

-- The gate `n` as the processor takes it apart (Intel SDM 3, figure 6-8): the entry point, the
-- selector of the kernel's code, presence, the level that may use it, and its kind: 14 for an
-- interrupt, 15 for a trap.
pub record IsGate (m : Mem) (idt n entry level kind : ℕ) : Type 0 where
  pub offset :
      gate_word m idt n 0 % 2 ^ 16
        + gate_word m idt n 1 / 2 ^ 16 * 2 ^ 16
        + gate_word m idt n 2 * 2 ^ 32
      ≡ entry
  pub selector : gate_word m idt n 0 / 2 ^ 16 ≡ 8
  pub present : gate_word m idt n 1 / 2 ^ 15 % 2 ≡ 1
  pub dpl : gate_word m idt n 1 / 2 ^ 13 % 4 ≡ level
  pub type : gate_word m idt n 1 / 2 ^ 8 % 32 ≡ kind
  pub stack : gate_word m idt n 1 % 2 ^ 8 ≡ 0
  pub reserved : gate_word m idt n 3 ≡ 0

-- A gate depends on its own bytes only.
pub IsGate-kept :
    (m m' : Mem) (idt n entry level kind : ℕ)
    → ((b : ℕ) → idt + 16 * n ≤ b → b < idt + 16 * n + 16 → m' b ≡ m b)
    → IsGate m idt n entry level kind
    → IsGate m' idt n entry level kind
IsGate-kept m m' idt n entry level kind h g =
    let e : (i : ℕ) → i < 4 → gate_word m' idt n i ≡ gate_word m idt n i =
      λ i l. load_ext 4 m' m (idt + 16 * n + 4 * i) (λ b p q. h b (omega arith) (omega arith)) in
    let w0 = e 0 (omega arith) in
    let w1 = e 1 (omega arith) in
    let w2 = e 2 (omega arith) in
    let w3 = e 3 (omega arith) in
    record {
      offset = rw (w0, w1, w2) g.offset;
      selector = rw (w0) g.selector;
      present = rw (w1) g.present;
      dpl = rw (w1) g.dpl;
      type = rw (w1) g.type;
      stack = rw (w1) g.stack;
      reserved = w3 ∙ g.reserved;
    }

-- The digits of the second word below the address: presence and kind, and the level between them.
low_level_bits :
    (q kind level : ℕ)
    → (kind ≡ 0x8E) ⊎ (kind ≡ 0x8F)
    → level < 4
    → bit_or (q * 2 ^ 8 + kind) (level * 2 ^ 5) ≡ q * 2 ^ 8 + kind + level * 2 ^ 5
low_level_bits q kind level k l = ground (
  arith,
  bit_or_digit (q * 2 ^ 8 + kind) (level * 2 ^ 5),
  bit_or_digit (q * 2 ^ 7 + kind / 2) (level * 2 ^ 4),
  bit_or_digit (q * 2 ^ 6 + kind / 4) (level * 2 ^ 3),
  bit_or_digit (q * 2 ^ 5 + kind / 8) (level * 2 ^ 2),
  bit_or_digit (q * 2 ^ 4 + kind / 16) (level * 2),
  bit_or_digit (q * 2 ^ 3 + kind / 32) level,
  bit_or_digit (q * 2 ^ 2 + kind / 64) (level / 2),
  bit_or-zero (q * 2 + 1),
)

-- Four words one behind the other.
abbrev four : Mem → (e a b c d : ℕ) → Mem
four m e a b c d = store32 (store32 (store32 (store32 m (e + 0) a) (e + 4) b) (e + 8) c) (e + 12) d

four_frame : (m : Mem) (e a b c d : ℕ) → SameBut e 16 m (four m e a b c d)
four_frame m e a b c d x o =
    let m1 = store32 m (e + 0) a in
    let m2 = store32 m1 (e + 4) b in
    let m3 = store32 m2 (e + 8) c in
    store_frame 4 m3 (e + 12) d x (omega arith)
    ∙ store_frame 4 m2 (e + 8) c x (omega arith)
    ∙ store_frame 4 m1 (e + 4) b x (omega arith)
    ∙ store_frame 4 m (e + 0) a x (omega arith)

-- A word stays where it is while words behind it are stored.
kept : (m : Mem) (e x v : ℕ) → e + 4 ≤ x → load32 (store32 m x v) e ≡ load32 m e
kept m e x v h = load_ext 4 (store32 m x v) m e (λ b p q. store_frame 4 m x v b (omega arith))

record IsFour (m : Mem) (e a b c d : ℕ) : Type 0 where
  word0 : load32 m (e + 0) ≡ a
  word1 : load32 m (e + 4) ≡ b
  word2 : load32 m (e + 8) ≡ c
  word3 : load32 m (e + 12) ≡ d

four-IsFour :
    (m : Mem) (e a b c d : ℕ)
    → a < 2 ^ 32
    → b < 2 ^ 32
    → c < 2 ^ 32
    → d < 2 ^ 32
    → IsFour (four m e a b c d) e a b c d
four-IsFour m e a b c d ha hb hc hd =
    let m1 = store32 m (e + 0) a in
    let m2 = store32 m1 (e + 4) b in
    let m3 = store32 m2 (e + 8) c in
    record {
      word0 =
          kept m3 (e + 0) (e + 12) d (omega arith)
          ∙ kept m2 (e + 0) (e + 8) c (omega arith)
          ∙ kept m1 (e + 0) (e + 4) b (omega arith)
          ∙ load-store_self 4 m (e + 0) a ha;
      word1 =
          kept m3 (e + 4) (e + 12) d (omega arith)
          ∙ kept m2 (e + 4) (e + 8) c (omega arith)
          ∙ load-store_self 4 m1 (e + 4) b hb;
      word2 = kept m3 (e + 8) (e + 12) d (omega arith) ∙ load-store_self 4 m2 (e + 8) c hc;
      word3 = load-store_self 4 m3 (e + 12) d hd;
    }

-- The kind of a gate, and with presence.
abbrev pub gate_kind : ℕ → ℕ
gate_kind trap = if trap == 0 then 14 else 15

-- The words of a gate.
first_word : (kva : ℕ) → bit_or (bit_and kva 0xFFFF) (8 * 2 ^ 16) ≡ 8 * 2 ^ 16 + kva % 2 ^ 16
first_word kva = rw (bit_and-low 16 kva) (bit_or_above 16 8 (kva % 2 ^ 16) (omega arith))

second_word :
    (kva pl kind : ℕ)
    → (kind ≡ 0x8E) ⊎ (kind ≡ 0x8F)
    → bit_or (bit_or (bit_and kva 0xFFFF0000) (kind * 2 ^ 8)) (bit_and pl 3 * 2 ^ 13)
      ≡ kva / 2 ^ 16 % 2 ^ 16 * 2 ^ 16 + kind * 2 ^ 8 + pl % 4 * 2 ^ 13
second_word kva pl kind k =
    let q = kva / 2 ^ 16 % 2 ^ 16 in
    let a : bit_and kva 0xFFFF0000 ≡ q * 2 ^ 16 =
      bit_and-shifted 16 kva 0xFFFF ∙ ap (λ x. x * 2 ^ 16) (bit_and-low 16 (kva / 2 ^ 16)) in
    let b : bit_or (q * 2 ^ 16) (kind * 2 ^ 8) ≡ (q * 2 ^ 8 + kind) * 2 ^ 8 =
      bit_or_fields 16 q (kind * 2 ^ 8) (omega arith) ∙ omega arith in
    let c : bit_and pl 3 * 2 ^ 13 ≡ pl % 4 * 2 ^ 5 * 2 ^ 8 = omega (arith, bit_and-low 2 pl) in
    let d : bit_or ((q * 2 ^ 8 + kind) * 2 ^ 8) (pl % 4 * 2 ^ 5 * 2 ^ 8)
        ≡ q * 2 ^ 16 + kind * 2 ^ 8 + pl % 4 * 2 ^ 13 =
      bit_or-shifted 8 (q * 2 ^ 8 + kind) (pl % 4 * 2 ^ 5)
      ∙ omega (arith, low_level_bits q kind (pl % 4) k (omega arith)) in
    rw (a, b, c) d

mkgate-eq :
    (m : Mem) (idt n kva pl trap : ℕ)
    → n < 256
    → mkgate m idt n kva pl trap
      ≡ four m
          (idt + 16 * n)
          (8 * 2 ^ 16 + kva % 2 ^ 16)
          (kva / 2 ^ 16 % 2 ^ 16 * 2 ^ 16 + (0x80 + gate_kind trap) * 2 ^ 8 + pl % 4 * 2 ^ 13)
          (kva / 2 ^ 32)
          0
unfolding mkgate
mkgate-eq m idt n kva pl trap h =
    let at : (i : ℕ) → i < 4 → idt + 4 * ((n * 4 + i) % 2 ^ 32) ≡ idt + 16 * n + 4 * i =
      λ i l. ground arith in
    let k : (if trap == 0 then 0x8E00 else 0x8F00) ≡ (0x80 + gate_kind trap) * 2 ^ 8 =
      ground arith in
    rw
      (
        at 0 (omega arith),
        at 1 (omega arith),
        at 2 (omega arith),
        at 3 (omega arith),
        k,
        first_word kva,
        second_word kva pl (0x80 + gate_kind trap) (ground arith),
      )
      refl

-- For a gate number below 256 and a 64-bit address, the gate that `mkgate` writes reads back, as
-- the processor takes it apart, as that address in the kernel's code segment, present, at the
-- level `pl` modulo 4, and of the kind asked for; no byte outside the gate has changed.
pub mkgate-IsGate :
    (m : Mem) (idt n kva pl trap : ℕ)
    → n < 256
    → kva < 2 ^ 64
    → IsGate (mkgate m idt n kva pl trap) idt n kva (pl % 4) (gate_kind trap)
      × SameBut (idt + 16 * n) 16 m (mkgate m idt n kva pl trap)
mkgate-IsGate m idt n kva pl trap h l =
    let a = 8 * 2 ^ 16 + kva % 2 ^ 16 in
    let b = kva / 2 ^ 16 % 2 ^ 16 * 2 ^ 16 + (0x80 + gate_kind trap) * 2 ^ 8 + pl % 4 * 2 ^ 13 in
    let w =
      four-IsFour m (idt + 16 * n) a b (kva / 2 ^ 32) 0 (omega arith) (ground arith) (omega arith)
        (omega arith) in
    let w0 : gate_word (four m (idt + 16 * n) a b (kva / 2 ^ 32) 0) idt n 0 ≡ a = w.word0 in
    let w1 = w.word1 in
    let w2 = w.word2 in
    let w3 = w.word3 in
    subst (λ m'. IsGate m' idt n kva (pl % 4) (gate_kind trap) × SameBut (idt + 16 * n) 16 m m')
      (sym (mkgate-eq m idt n kva pl trap h))
      (
        record {
          offset = ground (arith, w0, w1, w2);
          selector = ground (arith, w0);
          present = ground (arith, w1);
          dpl = ground (arith, w1);
          type = ground (arith, w1);
          stack = ground (arith, w1);
          reserved = w3;
        },
        four_frame m (idt + 16 * n) a b (kva / 2 ^ 32) 0,
      )
