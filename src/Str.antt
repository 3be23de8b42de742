-- ===== src/Str.antt =====
-- klib/string.c, with the `rep stos` helpers of include/x64defs.h that it calls. Each function takes
-- the memory and returns the new one; those that return `dst` or `os` return it beside the memory.
-- Objects lie inside the address space, so `p + n` on a pointer is a plain sum.
pub mod Fill
pub mod Move
pub mod Compare
pub mod Copy
pub mod Length
mod Tests
use rt.Prelude.{
  ℕ, zero, suc, ◌+◌, ◌-◌, ◌*◌, ◌/◌, ◌%◌, ◌^◌, bit_and, bit_or, Bool, true, false, ◌&&◌, not, Option,
  none, some, ltb, ◌==◌, if◌then◌else◌,
}
use rt.Prelude.Int.{ℤ, pos, pos_part, sub_ℕ}
use rt.Memory.{Mem, write, load, store, store32}

-- `rep stosb` and `rep stosl`, with the count that is in the register.
pub stosb : Mem → (addr value cnt : ℕ) → Mem
stosb m addr value zero = m
stosb m addr value (suc cnt) = stosb (write m addr value) (addr + 1) value cnt

pub stosl : Mem → (addr value cnt : ℕ) → Mem
stosl m addr value zero = m
stosl m addr value (suc cnt) = stosl (store32 m addr value) (addr + 4) value cnt

-- The word that holds the byte `c` four times.
pub splat : ℕ → ℕ
splat c = bit_or (bit_or (bit_or (c * 2 ^ 24) (c * 2 ^ 16)) (c * 2 ^ 8)) c

-- The count is passed as an `int`: its low 32 bits reach the register.
unfoldable pub memset : Mem → (dst c n : ℕ) → ℕ × Mem
unfolding stosb stosl splat
memset m dst c n =
    if (dst % 4 == 0) && (n % 4 == 0)
    then (dst, stosl m dst (splat (bit_and c 0xff)) (n / 4 % 2 ^ 32))
    else (dst, stosb m dst c (n % 2 ^ 32))

-- The difference of the first pair of bytes that differ, as an `int`.
unfoldable pub memcmp : Mem → (v1 v2 n : ℕ) → ℤ
memcmp m v1 v2 zero = pos 0
memcmp m v1 v2 (suc n) =
    if not (m v1 == m v2) then sub_ℕ (m v1) (m v2) else memcmp m (v1 + 1) (v2 + 1) n

-- `while (n-- > 0) *--d = *--s;`
pub copy_down : Mem → (d s n : ℕ) → Mem
copy_down m d s zero = m
copy_down m d s (suc n) = copy_down (write m (d - 1) (m (s - 1))) (d - 1) (s - 1) n

-- `while (n-- > 0) *d++ = *s++;`
pub copy_up : Mem → (d s n : ℕ) → Mem
copy_up m d s zero = m
copy_up m d s (suc n) = copy_up (write m d (m s)) (d + 1) (s + 1) n

unfoldable pub memmove : Mem → (dst src n : ℕ) → ℕ × Mem
unfolding copy_down copy_up
memmove m dst src n =
    if ltb src dst && ltb dst (src + n)
    then (dst, copy_down m (dst + n) (src + n) n)
    else (dst, copy_up m dst src n)

unfoldable pub memcpy : Mem → (dst src n : ℕ) → ℕ × Mem
unfolding memmove
memcpy m dst src n = memmove m dst src n

unfoldable pub strncmp : Mem → (p q n : ℕ) → ℤ
strncmp m p q zero = pos 0
strncmp m p q (suc n) =
    if not (m p == 0) && (m p == m q) then strncmp m (p + 1) (q + 1) n else sub_ℕ (m p) (m q)

-- `while (n-- > 0) *s++ = 0;`
pub pad_zeros : Mem → (s n : ℕ) → Mem
pad_zeros m s zero = m
pad_zeros m s (suc n) = pad_zeros (write m s 0) (s + 1) n

-- Both loops of `strncpy`, for a count that is not negative.
pub strncpy_loop : Mem → (s t n : ℕ) → Mem
strncpy_loop m s t zero = m
strncpy_loop m s t (suc n) =
    let rest = strncpy_loop (write m s (m t)) (s + 1) (t + 1) n in
    if m t == 0 then pad_zeros (write m s (m t)) (s + 1) n else rest

-- `int n`: a negative count copies nothing.
unfoldable pub strncpy : Mem → (s t : ℕ) → ℤ → ℕ × Mem
unfolding strncpy_loop pad_zeros
strncpy m s t n = (s, strncpy_loop m s t (pos_part n))

-- The loop and the final `*s = 0`, with `n - 1` rounds left.
pub safestrcpy_loop : Mem → (s t n : ℕ) → Mem
safestrcpy_loop m s t zero = write m s 0
safestrcpy_loop m s t (suc n) =
    let rest = safestrcpy_loop (write m s (m t)) (s + 1) (t + 1) n in
    if m t == 0 then write (write m s (m t)) (s + 1) 0 else rest

unfoldable pub safestrcpy : Mem → (s t : ℕ) → ℤ → ℕ × Mem
unfolding safestrcpy_loop
safestrcpy m s t n = if pos_part n == 0 then (s, m) else (s, safestrcpy_loop m s t (pos_part n - 1))

-- `for (n = 0; s[n]; n++);` within `fuel` rounds.
unfoldable pub strlen_from : Mem → (s n fuel : ℕ) → Option ℕ
strlen_from m s n zero = none
strlen_from m s n (suc fuel) =
    let rest = strlen_from m s (n + 1) fuel in if m (s + n) == 0 then some n else rest

unfoldable pub strlen : Mem → (s fuel : ℕ) → Option ℕ
unfolding strlen_from
strlen m s fuel = strlen_from m s 0 fuel
