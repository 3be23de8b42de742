-- ===== src/Lapic/Registers.antt =====
-- What a trace of kernel/lapic.c amounts to: the value last written to each register, and the
-- interrupts that were sent to other processors.
use rt.Prelude.{ℕ, ◌/◌, ◌%◌, ◌^◌, ◌≡◌, Bool, List, [], ◌∷◌, ◌==◌, if◌then◌else◌}
use rt.Lapic.{Event, Local, set_reg, get_reg, out, print_id, icrlo, icrhi}

-- The value last written to a register, 0 if there is none.
abbrev pub last : List Event → ℕ → ℕ
last [] r = 0
last (set_reg i v ∷ es) r = if i == r then v else last es r
last (get_reg i ∷ es) r = last es r
last (out p v ∷ es) r = last es r
last (print_id n ∷ es) r = last es r

-- An interrupt that a write of the low command word sends (Intel SDM 3, figure 10-12): the delivery
-- mode, the vector, whether the level is asserted, and the destination or everyone.
pub record Ipi : Type 0 where
  pub mode : ℕ
  pub vector : ℕ
  pub asserted : Bool
  pub everyone : Bool
  pub dest : ℕ

abbrev pub ipi : (hi lo : ℕ) → Ipi
ipi hi lo = record {
  mode = lo / 2 ^ 8 % 8;
  vector = lo % 2 ^ 8;
  asserted = lo / 2 ^ 14 % 2 == 1;
  everyone = lo / 2 ^ 18 % 4 == 2;
  dest = hi / 2 ^ 24;
}

-- The interrupts sent, the last one first.
abbrev pub ipis : List Event → List Ipi
ipis [] = []
ipis (set_reg i v ∷ es) = if i == icrlo then ipi (last es icrhi) v ∷ ipis es else ipis es
ipis (get_reg i ∷ es) = ipis es
ipis (out p v ∷ es) = ipis es
ipis (print_id n ∷ es) = ipis es

-- Only reads came in between.
pub record IsQuiet (s s' : Local) : Type 0 where
  pub mem_eq : s'.mem ≡ s.mem
  pub flags_eq : s'.eflags ≡ s.eflags
  pub last_eq : (r : ℕ) → last s'.trace r ≡ last s.trace r
  pub ipis_eq : ipis s'.trace ≡ ipis s.trace

-- The value of a byte of the CMOS memory: port 0x70 chooses it and port 0x71 writes it.
abbrev pub chosen : List Event → ℕ
chosen [] = 0
chosen (out p v ∷ es) = if p == 0x70 then v else chosen es
chosen (set_reg i v ∷ es) = chosen es
chosen (get_reg i ∷ es) = chosen es
chosen (print_id n ∷ es) = chosen es

abbrev pub cmos : List Event → ℕ → ℕ
cmos [] b = 0
cmos (out p v ∷ es) b = if p == 0x71 then (if chosen es == b then v else cmos es b) else cmos es b
cmos (set_reg i v ∷ es) b = cmos es b
cmos (get_reg i ∷ es) b = cmos es b
cmos (print_id n ∷ es) b = cmos es b
