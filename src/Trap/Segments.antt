-- ===== src/Trap/Segments.antt =====
-- kernel/trap.c: the segments and the task state after `trapinit`, and the whole of it.
use mathlib.Core.Path.{subst}
use rt.Prelude.{ℕ, ◌+◌, ◌*◌, ◌/◌, ◌%◌, ◌^◌, ◌<◌, ◌≤◌, ◌≡◌, ◌⊎◌, refl, sym, ◌∙◌, arith}
use rt.Bits.{bit_and-low, bit_or_above}
use rt.Memory.{Mem, store, load64, store32, store64}
use rt.Memory.Laws.{SameBut, load_ext, store_frame, load-store_self}
use rt.Trap.Setup.{set_gdt, tss_low, tss_high}

-- A word stays where it is while another one beside it is stored.
beside : (m : Mem) (e x v : ℕ) → (e + 8 ≤ x) ⊎ (x + 8 ≤ e) → load64 (store64 m x v) e ≡ load64 m e
beside m e x v h = load_ext 8 (store64 m x v) m e (λ b p q. store_frame 8 m x v b (omega arith))

-- The descriptor of the task state as the processor takes it apart (Intel SDM 3, figure 8-4).
pub record IsTaskState (low high base : ℕ) : Type 0 where
  pub limit : low % 2 ^ 16 ≡ 0x67
  pub kind : low / 2 ^ 40 % 2 ^ 8 ≡ 0xE9
  pub base_eq : low / 2 ^ 16 % 2 ^ 24 + low / 2 ^ 56 * 2 ^ 24 + high * 2 ^ 32 ≡ base

tss_low_lem :
    (addr : ℕ)
    → tss_low addr
      ≡ addr / 2 ^ 24 % 2 ^ 8 * 2 ^ 56 + (0xE9 * 2 ^ 40 + (addr % 2 ^ 24 * 2 ^ 16 + 0x67))
tss_low_lem addr =
    let a = addr % 2 ^ 24 in
    let c = addr / 2 ^ 24 % 2 ^ 8 in
    rw
      (
        bit_and-low 24 addr,
        bit_and-low 8 (addr / 2 ^ 24),
        bit_or_above 16 a 0x67 (omega arith),
        bit_or_above 40 0xE9 (a * 2 ^ 16 + 0x67) (omega arith),
        bit_or_above 56 c (0xE9 * 2 ^ 40 + (a * 2 ^ 16 + 0x67)) (omega arith),
      )
      refl

tss-IsTaskState : (addr : ℕ) → IsTaskState (tss_low addr) (tss_high addr) addr
tss-IsTaskState addr =
    rw (tss_low_lem addr) record { limit = omega arith; kind = omega arith; base_eq = omega arith }

-- A code or data descriptor: presence and kind, and the level.
abbrev pub level_of : ℕ → ℕ
level_of d = d / 2 ^ 45 % 4

abbrev pub is_code : ℕ → ℕ
is_code d = d / 2 ^ 43 % 2

abbrev pub is_long : ℕ → ℕ
is_long d = d / 2 ^ 53 % 2

abbrev pub is_present : ℕ → ℕ
is_present d = d / 2 ^ 47 % 2

pub record IsSegment (d level code : ℕ) : Type 0 where
  pub present : is_present d ≡ 1
  pub level_eq : level_of d ≡ level
  pub code_eq : is_code d ≡ code
  pub long : is_long d ≡ code

-- The null descriptor, 64-bit code and data for the kernel and for user programs, and the task state.
pub record HasSegments (gdt tss : ℕ) (m : Mem) : Type 0 where
  pub null : load64 m (gdt + 0) ≡ 0
  pub kernel_code : IsSegment (load64 m (gdt + 8)) 0 1
  pub kernel_data : IsSegment (load64 m (gdt + 16)) 0 0
  pub unused : load64 m (gdt + 24) ≡ 0
  pub user_code : IsSegment (load64 m (gdt + 32)) 3 1
  pub user_data : IsSegment (load64 m (gdt + 40)) 3 0
  pub task_state : IsTaskState (load64 m (gdt + 48)) (load64 m (gdt + 56)) tss

-- The constants of the four segments.
abbrev kernel_code_word : ℕ
kernel_code_word = 0x0020980000000000

abbrev kernel_data_word : ℕ
kernel_data_word = 0x0000920000000000

abbrev user_code_word : ℕ
user_code_word = 0x0020F80000000000

abbrev user_data_word : ℕ
user_data_word = 0x0000F20000000000

-- One more store inside the page.
inside :
    {gdt : ℕ} {m m' : Mem} (k n v : ℕ)
    → k + n ≤ 4096
    → SameBut gdt 4096 m m'
    → SameBut gdt 4096 m (store n m' (gdt + k) v)
inside {gdt} {m' = m'} k n v l h b o = store_frame n m' (gdt + k) v b (omega arith) ∙ h b o

-- The end of the task state, which lies behind the descriptors.
pub set_gdt_frame : (gdt : ℕ) (m : Mem) → SameBut gdt 4096 m (set_gdt gdt (gdt + 1024) m)
unfolding set_gdt
set_gdt_frame gdt m =
    let tss = gdt + 1024 in
    inside 56 8 (tss_high tss) (omega arith) (
      inside 48 8 (tss_low tss) (omega arith) (
        inside 40 8 user_data_word (omega arith) (
          inside 24 8 0 (omega arith) (
            inside 16 8 kernel_data_word (omega arith) (
              inside 32 8 user_code_word (omega arith) (
                inside 8 8 kernel_code_word (omega arith) (
                  inside 0 8 0 (omega arith)
                    (λ b o. store_frame 4 m (tss + 64) 0x00680000 b (omega arith)))))))))

pub set_gdt-HasSegments :
    (gdt tss : ℕ) (m : Mem) → tss < 2 ^ 64 → HasSegments gdt tss (set_gdt gdt tss m)
unfolding set_gdt
set_gdt-HasSegments gdt tss m h =
    let m0 = store64 (store32 m (tss + 64) 0x00680000) (gdt + 0) 0 in
    let m1 = store64 m0 (gdt + 8) 0x0020980000000000 in
    let m4 = store64 m1 (gdt + 32) 0x0020F80000000000 in
    let m2 = store64 m4 (gdt + 16) 0x0000920000000000 in
    let m3 = store64 m2 (gdt + 24) 0 in
    let m5 = store64 m3 (gdt + 40) 0x0000F20000000000 in
    let m6 = store64 m5 (gdt + 48) (tss_low tss) in
    let last : (k : ℕ)
        → k + 8 ≤ 48
        → load64 (store64 m6 (gdt + 56) (tss_high tss)) (gdt + k) ≡ load64 m5 (gdt + k) =
      λ k l.
        beside m6 (gdt + k) (gdt + 56) (tss_high tss) (omega arith)
        ∙ beside m5 (gdt + k) (gdt + 48) (tss_low tss) (omega arith) in
    let pass : (n : Mem) (i v k : ℕ)
        → (k + 8 ≤ i) ⊎ (i + 8 ≤ k)
        → load64 (store64 n (gdt + i) v) (gdt + k) ≡ load64 n (gdt + k) =
      λ n i v k l. beside n (gdt + k) (gdt + i) v (omega arith) in
    let here : (n : Mem) (i v : ℕ) → v < 2 ^ 64 → load64 (store64 n (gdt + i) v) (gdt + i) ≡ v =
      λ n i v l. load-store_self 8 n (gdt + i) v l in
    let ahead : (k : ℕ)
        → k + 8 ≤ 24
        → load64 (store64 m6 (gdt + 56) (tss_high tss)) (gdt + k) ≡ load64 m2 (gdt + k) =
      λ k l.
        last k (omega arith)
        ∙ pass m3 40 user_data_word k (omega arith)
        ∙ pass m2 24 0 k (omega arith) in
    let e0 =
      ahead 0 (omega arith)
      ∙ pass m4 16 kernel_data_word 0 (omega arith)
      ∙ pass m1 32 user_code_word 0 (omega arith)
      ∙ pass m0 8 kernel_code_word 0 (omega arith)
      ∙ here (store32 m (tss + 64) 0x00680000) 0 0 (omega arith) in
    let e1 =
      ahead 8 (omega arith)
      ∙ pass m4 16 kernel_data_word 8 (omega arith)
      ∙ pass m1 32 user_code_word 8 (omega arith)
      ∙ here m0 8 kernel_code_word (omega arith) in
    let e2 = ahead 16 (omega arith) ∙ here m4 16 kernel_data_word (omega arith) in
    let e3 =
      last 24 (omega arith)
      ∙ pass m3 40 user_data_word 24 (omega arith)
      ∙ here m2 24 0 (omega arith) in
    let e4 =
      last 32 (omega arith)
      ∙ pass m3 40 user_data_word 32 (omega arith)
      ∙ pass m2 24 0 32 (omega arith)
      ∙ pass m4 16 kernel_data_word 32 (omega arith)
      ∙ here m1 32 user_code_word (omega arith) in
    let e5 = last 40 (omega arith) ∙ here m3 40 user_data_word (omega arith) in
    let e6 =
      pass m6 56 (tss_high tss) 48 (omega arith)
      ∙ here m5 48 (tss_low tss) (omega (arith, tss_low_lem tss)) in
    let e7 = here m6 56 (tss_high tss) (omega arith) in
    record {
      null = e0;
      kernel_code = rw (e1) record { present = refl; level_eq = refl; code_eq = refl; long = refl };
      kernel_data = rw (e2) record { present = refl; level_eq = refl; code_eq = refl; long = refl };
      unused = e3;
      user_code = rw (e4) record { present = refl; level_eq = refl; code_eq = refl; long = refl };
      user_data = rw (e5) record { present = refl; level_eq = refl; code_eq = refl; long = refl };
      task_state =
          subst (λ x. IsTaskState x (load64 (store64 m6 (gdt + 56) (tss_high tss)) (gdt + 56)) tss)
            (sym e6) (subst (λ x. IsTaskState (tss_low tss) x tss) (sym e7) (tss-IsTaskState tss));
    }
