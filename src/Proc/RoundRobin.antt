-- ===== src/Proc/RoundRobin.antt =====
-- `find_runnable_proc` takes the first runnable slot in cyclic order, and no runnable process waits
-- for more picks than there are slots between it and the index of the search.
use native.Mathlib.Nat.{mod-eq_of_lt, mod-lt, mod-add-mod, add-mod-mod, mod-eq-sub-mod, add_assoc}
use native.Mathlib.Decide.{ℕ_discrete, dec_lt}
use mathlib.Core.Path.{subst}
use rt.Prelude.{
  ℕ, ◌+◌, ◌-◌, ◌%◌, ◌≤◌, ◌<◌, ◌≡◌, sym, ◌∙◌, ap, ◌⊎◌, inl, inr, Bool, true, false, arith,
}
use rt.Prelude.Run.{Outcome, done}
use rt.Proc.{Machine}
use rt.Proc.Switch.{find_runnable_proc}
use rt.Proc.Search.{
  runnable_at, nth_after, CanSearch, FirstAt, picked, mod_wrap, find_from, search_cases,
}

-- How many slots the search passes before it looks at slot `j`.
abbrev pub distance : Machine → ℕ → ℕ
distance m j = (j + m.nproc - m.next) % m.nproc

distance-hit :
    (m : Machine) (j : ℕ)
    → m.next < m.nproc
    → j < m.nproc
    → nth_after m.nproc m.next (distance m j) ≡ j
distance-hit m j h lt =
    add-mod-mod m.next (j + m.nproc - m.next) m.nproc
    ∙ ap (λ x. x % m.nproc) (omega arith)
    ∙ mod_wrap j m.nproc lt

distance-lt : (m : Machine) (j : ℕ) → CanSearch m → distance m j < m.nproc
distance-lt m j can = mod-lt _ (omega (arith, can.next_in))

-- With the search index below `nproc`, a table of at least `nproc` slots, slot `j` runnable and
-- fuel for `nproc` tests, `find_runnable_proc` ends. It returns the first runnable slot in cyclic
-- order from the index at which the last search ended, leaves the index one behind that slot, and
-- changes nothing else.
pub find_runnable_proc-first :
    (m : Machine) (j fuel : ℕ)
    → CanSearch m
    → j < m.nproc
    → runnable_at m.procs j ≡ true
    → m.nproc ≤ fuel
    → (k : ℕ) × (k ≤ distance m j)
      × FirstAt m k
      × (find_runnable_proc fuel m
          ≡ done (nth_after m.nproc m.next k) (picked m (nth_after m.nproc m.next k)))
find_runnable_proc-first m j fuel can lt run enough = elim (search_cases (distance m j + 1) m) [
  | inl (k, below, first) ↦
      (k, omega arith, first, find_from k fuel m can first (omega (arith, distance-lt m j can)))
  | inr gap ↦ absurd (
      clash run (
        subst (λ x. runnable_at m.procs x ≡ false) (distance-hit m j can.next_in lt)
          (gap (distance m j) (omega arith))))
]
  where
    clash : {b : Bool} → b ≡ true → b ≡ false → ⊥
    clash p q = cc

-- The distance is the only number of slots below `nproc` that leads to `j`.
distance_unique : (n i x j : ℕ) → i < n → x < n → (i + x) % n ≡ j → (j + n - i) % n ≡ x
distance_unique n i x j hi hx e = elim (dec_lt (i + x) n) [
  | yes lt ↦
      let at : j ≡ i + x = sym e ∙ mod-eq_of_lt lt in
      ap (λ y. y % n) (omega arith) ∙ mod_wrap x n hx
  | no ge ↦
      let at : j ≡ i + x - n = sym e ∙ mod-eq-sub-mod (omega arith) ∙ mod-eq_of_lt (omega arith) in
      ap (λ y. y % n) (omega arith) ∙ mod-eq_of_lt hx
]

-- A pick after `k` slots, with `d` slots to go to `j`, leaves `d - k - 1`.
distance-picked :
    (m : Machine) (j k : ℕ)
    → CanSearch m
    → j < m.nproc
    → k < distance m j
    → distance (picked m (nth_after m.nproc m.next k)) j ≡ distance m j - k - 1
distance-picked m j k can lt below =
    let p = nth_after m.nproc m.next k in
    let left = distance m j - k - 1 in
    distance_unique m.nproc ((p + 1) % m.nproc) left j (mod-lt _ (omega (arith, can.next_in)))
      (omega (arith, distance-lt m j can))
      (mod-add-mod (p + 1) m.nproc left
        ∙ ap (λ x. x % m.nproc) (add_assoc p 1 left)
        ∙ mod-add-mod (m.next + k) m.nproc (1 + left)
        ∙ ap (λ x. x % m.nproc) (omega arith)
        ∙ distance-hit m j can.next_in lt)

same_outcome :
    {r : Outcome Machine ℕ} {a b : ℕ} {s t : Machine}
    → r ≡ done a s
    → r ≡ done b t
    → (a ≡ b) × (s ≡ t)
same_outcome p q = ground (arith, p, q)

-- With the search index below `nproc`, a table of at least `nproc` slots, slot `j` runnable and
-- fuel for `nproc` tests, a search that returns a slot other than `j` leaves the index nearer to
-- `j`, by at least one slot.
pub find_runnable_proc-nearer :
    (m m' : Machine) (j p fuel : ℕ)
    → CanSearch m
    → j < m.nproc
    → runnable_at m.procs j ≡ true
    → m.nproc ≤ fuel
    → find_runnable_proc fuel m ≡ done p m'
    → (p ≡ j) ⊎ (distance m' j < distance m j)
find_runnable_proc-nearer m m' j p fuel can lt run enough e =
    let (k, below, first, found) = find_runnable_proc-first m j fuel can lt run enough in
    let (same, same') = same_outcome e found in
    elim (ℕ_discrete k (distance m j)) [
      | yes it ↦ inl (same ∙ ap (nth_after m.nproc m.next) it ∙ distance-hit m j can.next_in lt)
      | no ne ↦ inr (
          subst (λ x. distance x j < distance m j) (sym same')
            (omega (arith, distance-picked m j k can lt (omega arith))))
    ]
