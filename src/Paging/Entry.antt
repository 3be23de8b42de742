-- ===== src/Paging/Entry.antt =====
-- The bits of a page table entry as arithmetic on its word.
use rt.Prelude.{ℕ, ◌+◌, ◌-◌, ◌*◌, ◌/◌, ◌%◌, ◌^◌, ◌<◌, ◌≡◌, not, arith, ◌==◌}
use rt.Bits.{bit_and-low, bit_and-one, bit_or-one, bit_and-shifted, bit_or_fields, bit_or_digit}
use rt.Layout.{v2p}
use rt.Paging.{pml4_idx, pdpt_idx, pd_idx, pt_idx, pe_addr, present, huge, table_entry, leaf_entry}

pub pe_addr-eq_mul : (e : ℕ) → pe_addr e ≡ e / 4096 % 2 ^ 52 * 4096
unfolding pe_addr
pe_addr-eq_mul e = omega (arith, bit_and-shifted 12 e (2 ^ 52 - 1), bit_and-low 52 (e / 4096))

pub present-odd : (e : ℕ) → present e ≡ not (e % 2 == 0)
unfolding present
present-odd e = ground (arith, bit_and-one e)

pub huge-bit : (e : ℕ) → huge e ≡ not (e / 128 % 2 == 0)
unfolding huge
huge-bit e = ground (arith, bit_and-shifted 7 e 1, bit_and-one (e / 128))

-- The entry that points to a table frame.
pub table_entry-eq_add : (f : ℕ) → f % 4096 ≡ 0 → f < 2 ^ 64 → table_entry f ≡ v2p f + 7
unfolding table_entry
table_entry-eq_add f al lt = ground (
  arith,
  bit_or_fields 12 (v2p f / 4096) 2 (omega arith),
  bit_or-one (v2p f + 2),
  bit_or_digit (v2p f + 3) 4,
  bit_or_digit ((v2p f + 3) / 2) 2,
  bit_or-one ((v2p f + 3) / 2 / 2),
)

pub leaf_entry-eq_add :
    (pa flags : ℕ) → pa % 4096 ≡ 0 → flags < 4096 → leaf_entry pa flags ≡ pa + (flags / 2 * 2 + 1)
unfolding leaf_entry
leaf_entry-eq_add pa flags al lt =
    ground (arith, bit_or_fields 12 (pa / 4096) flags lt, bit_or-one (pa + flags))

pub idx_values :
    (va : ℕ)
    → (pml4_idx va ≡ va / 2 ^ 39 % 512)
      × (pdpt_idx va ≡ va / 2 ^ 30 % 512)
      × (pd_idx va ≡ va / 2 ^ 21 % 512)
      × (pt_idx va ≡ va / 2 ^ 12 % 512)
unfolding pml4_idx pdpt_idx pd_idx pt_idx
idx_values va = (
  bit_and-low 9 (va / 2 ^ 39),
  bit_and-low 9 (va / 2 ^ 30),
  bit_and-low 9 (va / 2 ^ 21),
  bit_and-low 9 (va / 2 ^ 12),
)
