-- ===== src/Paging/Step.antt =====
-- One step down the tree of tables: what it may change, and writes to single entries.
use rt.Prelude.{
  ℕ, suc, ◌+◌, ◌*◌, ◌%◌, ◌^◌, ◌≤◌, ◌<◌, ◌≡◌, ◌≢◌, refl, ◌⊎◌, Bool, true, false, some, List, arith,
  length, ◌==◌, if◌then◌else◌,
}
use rt.Memory.{Mem, store64}
use rt.Memory.Laws.{store_frame, store-IsBytes, load-store_ne}
use rt.Kalloc.{Kernel}
use rt.Kalloc.Chain.{IsFrame, NotIn, IsFree, Chain-SameBut}
use rt.Paging.{entry, present, table_entry}
use rt.Paging.Entry.{pe_addr-eq_mul, present-odd, huge-bit, table_entry-eq_add}
use rt.Paging.Tables.{Slot, slot, Owner, Leads, IsTree, IsBlank}

-- The entry for a fresh table leads to it.
pub table_entry-Leads : (f : ℕ) → IsFrame f → Leads (table_entry f) f
table_entry-Leads f is =
    let e = table_entry-eq_add f is.aligned (omega (arith, is.inside)) in
    record {
      is_present = ground (arith, present-odd (table_entry f), is.aligned, is.inside);
      not_huge = ground (arith, huge-bit (table_entry f), is.aligned, is.inside);
      target = ground (arith, pe_addr-eq_mul (table_entry f), is.aligned, is.inside);
    }

pub present-zero : present 0 ≡ false
unfolding present
present-zero = refl

pub not_both : {b : Bool} → b ≡ true → b ≡ false → ⊥
not_both p q = cc

-- Give the frame `f` the place `s`.
abbrev pub assign : Owner → ℕ → Slot → Owner
assign own f s t = if t == f then some s else own t

-- What one step from the table `t` through entry `i` leaves: the table `n` at the place below, no
-- entry lost, and no new entry but the one that leads to `n`, which is then blank.
pub record Stepped (k : Kernel) (fs : List ℕ) (own : Owner) (root t l p i n : ℕ) (k' : Kernel)
    : Type 0 where
  pub from_table : own t ≡ some (slot (suc (suc l)) p)
  pub free' : List ℕ
  pub own' : Owner
  pub tree : IsTree k' free' own' root
  pub spent : length fs ≤ length free' + 1
  pub fewer : length free' ≤ length fs
  pub place : own' n ≡ some (slot (suc l) (p * 512 + i))
  pub leads : Leads (entry k'.mem t i) n
  pub owned : (u : ℕ) (s : Slot) → own u ≡ some s → own' u ≡ some s
  pub kept :
      (u j : ℕ) (s : Slot)
      → own u ≡ some s
      → j < 512
      → present (entry k.mem u j) ≡ true
      → entry k'.mem u j ≡ entry k.mem u j
  pub absent :
      (u j : ℕ) (s : Slot)
      → own u ≡ some s
      → j < 512
      → present (entry k.mem u j) ≡ false
      → (present (entry k'.mem u j) ≡ false) ⊎ ((u ≡ t) × (j ≡ i) × IsBlank k'.mem n)

-- Writing one entry of a table leaves every other entry of every table.
pub entry-set_other :
    (m : Mem) (t i v u j : ℕ)
    → t % 4096 ≡ 0
    → u % 4096 ≡ 0
    → i < 512
    → j < 512
    → (u ≢ t) ⊎ (j ≢ i)
    → entry (store64 m (t + 8 * i) v) u j ≡ entry m u j
entry-set_other m t i v u j ht hu hi hj ne =
    load-store_ne 8 8 m (t + 8 * i) v (u + 8 * j) (omega arith)

-- The free list survives a write to an entry of a table.
pub IsFree-set :
    {k : Kernel} (fs : List ℕ) (t i v : ℕ)
    → IsFree k fs
    → t % 4096 ≡ 0
    → i < 512
    → NotIn t fs
    → IsFree (record k { mem = store64 k.mem (t + 8 * i) v }) fs
IsFree-set {k} fs t i v free ht hi new = record {
  frames = free.frames;
  chain =
      Chain-SameBut k.mem _ t k.freelist fs ht new free.frames
        (λ b o. store_frame 8 k.mem (t + 8 * i) v b (omega arith)) free.chain;
  counted = free.counted;
  bytes = store-IsBytes 8 k.mem (t + 8 * i) v free.bytes;
}

pub table_entry-lt : (f : ℕ) → IsFrame f → table_entry f < 2 ^ 64
table_entry-lt f is =
    omega (arith, is.aligned, is.inside, table_entry-eq_add f is.aligned (omega (arith, is.inside)))
