-- ===== src/Proc/Search.antt =====
-- `find_runnable_proc` round by round: it takes the first runnable slot in cyclic order.
use native.Mathlib.Nat.{mod-lt, mod-add-mod}
use native.Mathlib.Decide.{ℕ_discrete}
use mathlib.Core.Path.{subst}
use rt.Prelude.{
  ℕ, zero, suc, ◌+◌, ◌%◌, ◌≤◌, ◌<◌, ◌≡◌, sym, ◌∙◌, ap, ◌⊎◌, inl, inr, Bool, true, false, Option,
  none, some, List, arith, length, get_elem?, Bool-cases, ◌==◌, if◌then◌else◌,
}
use rt.Prelude.Run.{done}
use rt.Proc.{Proc, Machine, is_runnable}
use rt.Proc.Table.{get_elem?-lt}
use rt.Proc.Switch.{find_runnable_proc}

-- Slot `i` of the table holds a process that can run.
abbrev pub can_run : Option Proc → Bool
can_run none = false
can_run (some p) = is_runnable p.state

abbrev pub runnable_at : List Proc → ℕ → Bool
runnable_at ps i = can_run (get_elem? ps i)

-- The `k`-th slot after `i`, in a cycle of `n`.
abbrev pub nth_after : (n i k : ℕ) → ℕ
nth_after n i k = (i + k) % n

-- What the search relies on.
pub record CanSearch (m : Machine) : Type 0 where
  pub next_in : m.next < m.nproc
  pub table : m.nproc ≤ length m.procs

-- The `k`-th slot from `next` is the first runnable one.
pub record FirstAt (m : Machine) (k : ℕ) : Type 0 where
  pub hit : runnable_at m.procs (nth_after m.nproc m.next k) ≡ true
  pub before : (i : ℕ) → i < k → runnable_at m.procs (nth_after m.nproc m.next i) ≡ false

-- The search ends at slot `p`, one behind which the next one begins.
abbrev pub picked : Machine → ℕ → Machine
picked m p = record m { next = (p + 1) % m.nproc }

pub mod_wrap : (j n : ℕ) → j < n → (j + n) % n ≡ j
mod_wrap j n h = grind arith

pub nth_after-step : (n i k : ℕ) → i < n → nth_after n ((i + 1) % n) k ≡ nth_after n i (suc k)
nth_after-step n i k h = mod-add-mod (i + 1) n k ∙ ap (λ x. x % n) (omega arith)

pub nth_after-zero : (n i : ℕ) → i < n → nth_after n i 0 ≡ i
nth_after-zero n i h = grind arith

-- One round of the search.
pub find_round :
    (fuel : ℕ) (m : Machine)
    → CanSearch m
    → find_runnable_proc (suc fuel) m ≡ (
        if runnable_at m.procs m.next
        then done m.next (picked m m.next)
        else find_runnable_proc fuel (picked m m.next))
unfolding find_runnable_proc
find_round fuel m can =
    let (p, e) = get_elem?-lt m.procs m.next (omega (arith, can.next_in, can.table)) in
    let some_slot : (m.nproc == 0) ≡ false = ground (arith, can.next_in) in
    elim (Bool-cases (is_runnable p.state)) [
      | inl yes' ↦ rw (e, some_slot, yes')
      | inr no' ↦ rw (e, some_slot, no')
    ]

pub FirstAt-zero : (m : Machine) → CanSearch m → FirstAt m 0 → runnable_at m.procs m.next ≡ true
FirstAt-zero m can first =
    ap (runnable_at m.procs) (sym (nth_after-zero m.nproc m.next can.next_in)) ∙ first.hit

pub FirstAt-skip :
    (m : Machine) (k : ℕ)
    → CanSearch m
    → FirstAt m (suc k)
    → (runnable_at m.procs m.next ≡ false) × FirstAt (picked m m.next) k
FirstAt-skip m k can first = (
  ap (runnable_at m.procs) (sym (nth_after-zero m.nproc m.next can.next_in))
      ∙ first.before 0 (omega arith),
  record {
    hit = ap (runnable_at m.procs) (nth_after-step m.nproc m.next k can.next_in) ∙ first.hit;
    before = λ i lt.
        ap (runnable_at m.procs) (nth_after-step m.nproc m.next i can.next_in)
        ∙ first.before (suc i) (omega arith);
  },
)

pub picked-CanSearch : (m : Machine) (p : ℕ) → CanSearch m → CanSearch (picked m p)
picked-CanSearch m p can = record {
  next_in = mod-lt _ (omega (arith, can.next_in));
  table = can.table;
}

-- The search as a run: `k` rounds that fail and one that hits.
pub find_from :
    (k fuel : ℕ) (m : Machine)
    → CanSearch m
    → FirstAt m k
    → k < fuel
    → find_runnable_proc fuel m
      ≡ done (nth_after m.nproc m.next k) (picked m (nth_after m.nproc m.next k))
find_from k zero m can first lt = absurd (omega arith)
find_from zero (suc fuel) m can first lt =
    let here = FirstAt-zero m can first in
    find_round fuel m can
    ∙ rw here (ap (λ p. done p (picked m p)) (sym (nth_after-zero m.nproc m.next can.next_in)))
find_from (suc k) (suc fuel) m can first lt =
    let (gap, first') = FirstAt-skip m k can first in
    find_round fuel m can
    ∙ rw gap (
        find_from k fuel (picked m m.next) (picked-CanSearch m m.next can) first' (omega arith)
        ∙ ap (λ p. done p (picked m p)) (nth_after-step m.nproc m.next k can.next_in))

-- Either some slot among the next `n` is the first that can run, or none of them can.
pub search_cases :
    (n : ℕ) (m : Machine)
    → ((k : ℕ) × (k < n) × FirstAt m k)
      ⊎ ((i : ℕ) → i < n → runnable_at m.procs (nth_after m.nproc m.next i) ≡ false)
search_cases zero m = inr (λ i h. absurd (omega arith))
search_cases (suc n) m = elim (search_cases n m) [
  | inl (k, lt, first) ↦ inl (k, omega arith, first)
  | inr gap ↦ elim (Bool-cases (runnable_at m.procs (nth_after m.nproc m.next n))) [
    | inl hit ↦ inl (n, omega arith, record { hit = hit; before = gap })
    | inr miss ↦ inr (λ i lt. elim (ℕ_discrete i n) [
      | yes e ↦ subst (λ x. runnable_at m.procs (nth_after m.nproc m.next x) ≡ false) (sym e) miss
      | no ne ↦ gap i (omega arith)
    ])
  ]
]
