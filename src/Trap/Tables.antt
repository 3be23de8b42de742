-- ===== src/Trap/Tables.antt =====
-- kernel/trap.c: the tables of a processor after `trapinit`.
use mathlib.Core.Path.{subst}
use native.Mathlib.Decide.{ℕ_discrete}
use rt.Prelude.{ℕ, zero, suc, ◌+◌, ◌*◌, ◌^◌, ◌<◌, ◌≤◌, ◌≡◌, ◌≢◌, refl, ◌∙◌, arith}
use rt.Memory.{Mem}
use rt.Memory.Laws.{SameBut}
use rt.Trap.{mkgate, t_syscall}
use rt.Trap.Setup.{mkgates, set_idt}
use rt.Trap.Gate.{IsGate, IsGate-kept, mkgate-IsGate}

-- The gates from `n` on, each at level 0.
record HasGates (vectors : ℕ → ℕ) (idt n left : ℕ) (m m' : Mem) : Type 0 where
  gates : (j : ℕ) → n ≤ j → j < n + left → IsGate m' idt j (vectors j) 0 14
  rest : SameBut (idt + 16 * n) (16 * left) m m'

mkgates-HasGates :
    (vectors : ℕ → ℕ) (idt left n : ℕ) (m : Mem)
    → ((j : ℕ) → vectors j < 2 ^ 64)
    → n + left ≤ 256
    → HasGates vectors idt n left m (mkgates vectors idt left n m)
unfolding mkgates
mkgates-HasGates vectors idt zero n m v h = record {
  gates = λ j p q. absurd (omega arith);
  rest = λ b o. refl;
}
mkgates-HasGates vectors idt (suc left) n m v h =
    let m1 = mkgate m idt n (vectors n) 0 0 in
    let one = mkgate-IsGate m idt n (vectors n) 0 0 (omega arith) (v n) in
    let more = mkgates-HasGates vectors idt left (n + 1) m1 v (omega arith) in
    record {
      gates = λ j p q. elim (ℕ_discrete n j) [
        | yes e ↦
            subst (λ i. IsGate (mkgates vectors idt left (n + 1) m1) idt i (vectors i) 0 14) e
              (IsGate-kept m1 _ idt n (vectors n) 0 14 (λ b x y. more.rest b (omega arith)) one.0)
        | no ne ↦ more.gates j (omega arith) (omega arith)
      ];
      rest = λ b o. more.rest b (omega arith) ∙ one.1 b (omega arith);
    }

-- Every interrupt and fault enters at its own entry point from any level, the system call is the only
-- one that user code may ask for.
pub record IsTable (vectors : ℕ → ℕ) (idt : ℕ) (m : Mem) : Type 0 where
  pub interrupt : (j : ℕ) → j < 256 → j ≢ t_syscall → IsGate m idt j (vectors j) 0 14
  pub syscall : IsGate m idt t_syscall (vectors t_syscall) 3 15

pub set_idt-IsTable :
    (vectors : ℕ → ℕ) (idt : ℕ) (m : Mem)
    → ((j : ℕ) → vectors j < 2 ^ 64)
    → IsTable vectors idt (set_idt vectors idt m) × SameBut idt 4096 m (set_idt vectors idt m)
unfolding set_idt
set_idt-IsTable vectors idt m v =
    let m1 = mkgates vectors idt 256 0 m in
    let all = mkgates-HasGates vectors idt 256 0 m v (omega arith) in
    let last = mkgate-IsGate m1 idt t_syscall (vectors t_syscall) 3 1 (omega arith) (v t_syscall) in
    (
      record {
        interrupt = λ j h ne.
            IsGate-kept m1 _ idt j (vectors j) 0 14 (λ b x y. last.1 b (omega arith))
              (all.gates j (omega arith) (omega arith));
        syscall = last.0;
      },
      λ b o. last.1 b (omega arith) ∙ all.rest b (omega arith),
    )

-- A table far from the memory that changes.
pub IsTable-kept :
    (vectors : ℕ → ℕ) (idt : ℕ) (m m' : Mem)
    → ((b : ℕ) → idt ≤ b → b < idt + 4096 → m' b ≡ m b)
    → IsTable vectors idt m
    → IsTable vectors idt m'
IsTable-kept vectors idt m m' h t = record {
  interrupt = λ j l ne.
      IsGate-kept m m' idt j (vectors j) 0 14 (λ b x y. h b (omega arith) (omega arith))
        (t.interrupt j l ne);
  syscall =
      IsGate-kept m m' idt t_syscall (vectors t_syscall) 3 15
        (λ b x y. h b (omega arith) (omega arith)) t.syscall;
}
