-- ===== src/Str/Move.antt =====
-- `memmove` and `memcpy` copy what the source held before the call, also where the two overlap.
use mathlib.Core.Path.{subst₂}
use rt.Prelude.{
  ℕ, zero, suc, ◌+◌, ◌-◌, ◌≤◌, ◌<◌, ◌≡◌, refl, ◌∙◌, ◌⊎◌, inl, inr, ◌&&◌, arith, ltb, Bool-cases,
}
use rt.Memory.{Mem, write}
use rt.Memory.Laws.{IsBytes, SameBut, write_self, write_ne, write-IsBytes}
use rt.Str.{copy_up, copy_down, memmove, memcpy}

-- The `n` bytes from `d` are those that `m` held from `s`, and no other byte has changed.
pub record IsCopied (m : Mem) (d s n : ℕ) (m' : Mem) : Type 0 where
  pub inside : (i : ℕ) → i < n → m' (d + i) ≡ m (s + i)
  pub outside : SameBut d n m m'

-- One round from below, and what the rounds after it do.
step_up :
    (n : ℕ) (m : Mem) (d s : ℕ) {m' : Mem}
    → IsBytes m
    → (d ≤ s) ⊎ (s + suc n ≤ d)
    → IsCopied (write m d (m s)) (d + 1) (s + 1) n m'
    → IsCopied m d s (suc n) m'
step_up n m d s {m'} bytes apart rest = record {
  inside = inside;
  outside = λ b h. rest.outside b (omega arith) ∙ write_ne m d (m s) b (omega arith);
}
  where
    inside : (i : ℕ) → i < suc n → m' (d + i) ≡ m (s + i)
    inside zero h = ground (arith, rest.outside d, write_self m d (m s), bytes s)
    inside (suc i) h = ground (arith, rest.inside i, write_ne m d (m s) (s + 1 + i))

copy_up-IsCopied :
    (n : ℕ) (m : Mem) (d s : ℕ)
    → IsBytes m
    → (d ≤ s) ⊎ (s + n ≤ d)
    → IsCopied m d s n (copy_up m d s n)
unfolding copy_up
copy_up-IsCopied zero m d s bytes apart = record {
  inside = λ i h. absurd (omega arith);
  outside = λ b h. refl;
}
copy_up-IsCopied (suc n) m d s bytes apart = step_up n m d s bytes apart (
    copy_up-IsCopied n (write m d (m s)) (d + 1) (s + 1) (write-IsBytes m d (m s) bytes)
      (omega arith))

-- One round from above: it writes the last byte of the range.
step_down :
    (n : ℕ) (m : Mem) (d s : ℕ) {m' : Mem}
    → IsBytes m
    → s ≤ d
    → IsCopied (write m (d + suc n - 1) (m (s + suc n - 1))) d s n m'
    → IsCopied m d s (suc n) m'
step_down n m d s {m'} bytes below rest = record {
  inside = inside;
  outside = λ b h.
      rest.outside b (omega arith) ∙ write_ne m (d + suc n - 1) (m (s + suc n - 1)) b (omega arith);
}
  where
    inside : (i : ℕ) → i < suc n → m' (d + i) ≡ m (s + i)
    inside i h = ground (
      arith,
      rest.inside i,
      rest.outside (d + i),
      write_self m (d + suc n - 1) (m (s + suc n - 1)),
      write_ne m (d + suc n - 1) (m (s + suc n - 1)) (s + i),
      bytes (s + suc n - 1),
    )

copy_down-IsCopied :
    (n : ℕ) (m : Mem) (d s : ℕ)
    → IsBytes m
    → s ≤ d
    → IsCopied m d s n (copy_down m (d + n) (s + n) n)
unfolding copy_down
copy_down-IsCopied zero m d s bytes below = record {
  inside = λ i h. absurd (omega arith);
  outside = λ b h. refl;
}
copy_down-IsCopied (suc n) m d s bytes below =
    let m' = write m (d + suc n - 1) (m (s + suc n - 1)) in
    step_down n m d s bytes below (
      subst₂ (λ j k. IsCopied m' d s n (copy_down m' j k n)) (omega arith) (omega arith)
        (copy_down-IsCopied n m' d s (write-IsBytes m _ _ bytes) below))

-- On a memory of bytes, `memmove` returns `dst`; the `n` bytes from `dst` are then those that
-- stood from `src` before the call, however the two ranges overlap, and no byte outside `dst ..
-- dst + n` has changed.
pub memmove-IsCopied :
    (m : Mem) (dst src n : ℕ)
    → IsBytes m
    → ((memmove m dst src n).0 ≡ dst) × IsCopied m dst src n (memmove m dst src n).1
unfolding memmove
memmove-IsCopied m dst src n bytes = elim (Bool-cases (ltb src dst && ltb dst (src + n))) [
  | inl over ↦ rw over (refl, copy_down-IsCopied n m dst src bytes (ground arith))
  | inr clear ↦ rw clear (refl, copy_up-IsCopied n m dst src bytes (ground arith))
]

pub memcpy-IsCopied :
    (m : Mem) (dst src n : ℕ)
    → IsBytes m
    → ((memcpy m dst src n).0 ≡ dst) × IsCopied m dst src n (memcpy m dst src n).1
unfolding memcpy
memcpy-IsCopied m dst src n bytes = memmove-IsCopied m dst src n bytes
