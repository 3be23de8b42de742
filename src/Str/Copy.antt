-- ===== src/Str/Copy.antt =====
-- `strncpy` and `safestrcpy`, for a source string apart from the buffer.
use mathlib.Core.Path.{subst}
use rt.Prelude.{
  ℕ, zero, suc, ◌+◌, ◌-◌, ◌≤◌, ◌<◌, ◌≡◌, ◌≢◌, refl, ◌∙◌, ◌⊎◌, true, false, arith, ◌==◌,
}
use rt.Prelude.Int.{ℤ, pos, pos_part}
use rt.Memory.{Mem, write}
use rt.Memory.Laws.{IsBytes, SameBut, write_self, write_ne, write-IsBytes}
use rt.Str.{pad_zeros, strncpy_loop, strncpy, safestrcpy_loop, safestrcpy}
use rt.Str.Fill.{IsFilled}

-- Two ranges share no address.
abbrev pub Apart : ℕ → ℕ → ℕ → ℕ → Type 0
Apart a n b k = (a + n ≤ b) ⊎ (b + k ≤ a)

-- The `n` bytes from `t` go up to and include a first zero at `k`, or have no zero (`k` is `n`).
pub record TextLen (m : Mem) (t n k : ℕ) : Type 0 where
  pub bound : k ≤ n
  pub text : (i : ℕ) → i < k → m (t + i) ≢ 0
  pub ends : k < n → m (t + k) ≡ 0

pad_zeros-IsFilled : (n : ℕ) (m : Mem) (s : ℕ) → IsFilled m s n 0 (pad_zeros m s n)
unfolding pad_zeros
pad_zeros-IsFilled zero m s = record {
  inside = λ b p q. absurd (omega arith);
  outside = λ b h. refl;
}
pad_zeros-IsFilled (suc n) m s =
    let rest = pad_zeros-IsFilled n (write m s 0) (s + 1) in
    record {
      inside = λ b p q. ground (arith, rest.inside b, rest.outside b, write_self m s 0);
      outside = λ b h. rest.outside b (omega arith) ∙ write_ne m s 0 b (omega arith);
    }

-- The buffer holds the `k` bytes of the text and zeros after it; no other byte has changed.
pub record IsPadded (m : Mem) (s t n k : ℕ) (m' : Mem) : Type 0 where
  pub text : (i : ℕ) → i < k → m' (s + i) ≡ m (t + i)
  pub zeros : (i : ℕ) → k ≤ i → i < n → m' (s + i) ≡ 0
  pub outside : SameBut s n m m'

IsPadded-suc :
    (m : Mem) (s t n k : ℕ) {m' : Mem}
    → IsBytes m
    → Apart s (suc n) t (suc n)
    → k ≤ n
    → IsPadded (write m s (m t)) (s + 1) (t + 1) n k m'
    → IsPadded m s t (suc n) (suc k) m'
IsPadded-suc m s t n k {m'} bytes apart le rest = record {
  text = text;
  zeros = zeros;
  outside = λ b h. rest.outside b (omega arith) ∙ write_ne m s (m t) b (omega arith);
}
  where
    text : (i : ℕ) → i < suc k → m' (s + i) ≡ m (t + i)
    text zero h = ground (arith, rest.outside s, write_self m s (m t), bytes t)
    text (suc i) h = ground (arith, rest.text i, write_ne m s (m t) (t + 1 + i))

    zeros : (i : ℕ) → suc k ≤ i → i < suc n → m' (s + i) ≡ 0
    zeros zero h p = absurd (omega arith)
    zeros (suc i) h p = ground (arith, rest.zeros i)

-- A text that ends at once.
IsPadded-end :
    (m : Mem) (s t n : ℕ)
    → m t ≡ 0
    → IsPadded m s t (suc n) 0 (pad_zeros (write m s (m t)) (s + 1) n)
IsPadded-end m s t n e = record {
  text = λ i h. absurd (omega arith);
  zeros = λ i h p. ground (arith, rest.inside (s + i), rest.outside (s + i), write_self m s (m t));
  outside = λ b h. rest.outside b (omega arith) ∙ write_ne m s (m t) b (omega arith);
}
  where
    rest : IsFilled (write m s (m t)) (s + 1) n 0 (pad_zeros (write m s (m t)) (s + 1) n)
    rest = pad_zeros-IsFilled n (write m s (m t)) (s + 1)

TextLen-tail :
    (m : Mem) (s t n k : ℕ)
    → Apart s (suc n) t (suc n)
    → TextLen m t (suc n) (suc k)
    → TextLen (write m s (m t)) (t + 1) n k
TextLen-tail m s t n k apart l = record {
  bound = omega (arith, l.bound);
  text = λ i h. ground (arith, l.text (suc i), write_ne m s (m t) (t + 1 + i));
  ends = λ h. ground (arith, l.ends, write_ne m s (m t) (t + 1 + k));
}

strncpy_loop-IsPadded :
    (n : ℕ) (m : Mem) (s t k : ℕ)
    → IsBytes m
    → Apart s n t n
    → TextLen m t n k
    → IsPadded m s t n k (strncpy_loop m s t n)
unfolding strncpy_loop
strncpy_loop-IsPadded zero m s t k bytes apart l = record {
  text = λ i h. absurd (omega (arith, l.bound));
  zeros = λ i h p. absurd (omega arith);
  outside = λ b h. refl;
}
strncpy_loop-IsPadded (suc n) m s t zero bytes apart l =
    let end : (m t == 0) ≡ true = ground (arith, l.ends) in
    rw end (IsPadded-end m s t n (ground arith))
strncpy_loop-IsPadded (suc n) m s t (suc k) bytes apart l =
    let more : (m t == 0) ≡ false = ground (arith, l.text 0) in
    rw more (
      IsPadded-suc m s t n k bytes apart (omega (arith, l.bound)) (
        strncpy_loop-IsPadded n (write m s (m t)) (s + 1) (t + 1) k (write-IsBytes m s (m t) bytes)
          (omega arith) (TextLen-tail m s t n k apart l)))

-- On a memory of bytes, for a source apart from the buffer, `strncpy` returns `os`, copies the
-- text of `t` as far as its end or `n` bytes, and fills the rest of the `n` bytes with zeros;
-- nothing outside the buffer changes, and nothing at all if `n` is negative.
pub strncpy-IsPadded :
    (m : Mem) (s t : ℕ) (n : ℤ) (k : ℕ)
    → IsBytes m
    → Apart s (pos_part n) t (pos_part n)
    → TextLen m t (pos_part n) k
    → ((strncpy m s t n).0 ≡ s) × IsPadded m s t (pos_part n) k (strncpy m s t n).1
unfolding strncpy
strncpy-IsPadded m s t n k bytes apart l =
    (refl, strncpy_loop-IsPadded (pos_part n) m s t k bytes apart l)

-- The buffer holds the `k` bytes of the text and a zero after them.
pub record IsTerminated (m : Mem) (s t n k : ℕ) (m' : Mem) : Type 0 where
  pub text : (i : ℕ) → i < k → m' (s + i) ≡ m (t + i)
  pub nul : m' (s + k) ≡ 0
  pub outside : SameBut s n m m'

IsTerminated-suc :
    (m : Mem) (s t n k : ℕ) {m' : Mem}
    → IsBytes m
    → Apart s (suc n) t (suc n)
    → k < n
    → IsTerminated (write m s (m t)) (s + 1) (t + 1) n k m'
    → IsTerminated m s t (suc n) (suc k) m'
IsTerminated-suc m s t n k {m'} bytes apart lt rest = record {
  text = text;
  nul = ground (arith, rest.nul);
  outside = λ b h. rest.outside b (omega arith) ∙ write_ne m s (m t) b (omega arith);
}
  where
    text : (i : ℕ) → i < suc k → m' (s + i) ≡ m (t + i)
    text zero h = ground (arith, rest.outside s, write_self m s (m t), bytes t)
    text (suc i) h = ground (arith, rest.text i, write_ne m s (m t) (t + 1 + i))

-- The loop stops at the end of the text, or with one byte of the buffer left.
safestrcpy_loop-IsTerminated :
    (n : ℕ) (m : Mem) (s t k : ℕ)
    → IsBytes m
    → Apart s (suc n) t (suc n)
    → TextLen m t n k
    → IsTerminated m s t (suc n) k (safestrcpy_loop m s t n)
unfolding safestrcpy_loop
safestrcpy_loop-IsTerminated zero m s t k bytes apart l = record {
  text = λ i h. absurd (omega (arith, l.bound));
  nul = ground (arith, l.bound, write_self m s 0);
  outside = λ b h. write_ne m s 0 b (omega arith);
}
safestrcpy_loop-IsTerminated (suc n) m s t zero bytes apart l =
    let end : (m t == 0) ≡ true = ground (arith, l.ends) in
    rw end (record {
      text = λ i h. absurd (omega arith);
      nul = ground (arith, write_ne (write m s (m t)) (s + 1) 0 s, write_self m s (m t));
      outside = λ b h.
          write_ne (write m s (m t)) (s + 1) 0 b (omega arith) ∙ write_ne m s (m t) b (omega arith);
    })
safestrcpy_loop-IsTerminated (suc n) m s t (suc k) bytes apart l =
    let more : (m t == 0) ≡ false = ground (arith, l.text 0) in
    rw more (
      IsTerminated-suc m s t (suc n) k bytes apart (omega (arith, l.bound)) (
        safestrcpy_loop-IsTerminated n (write m s (m t)) (s + 1) (t + 1) k
          (write-IsBytes m s (m t) bytes) (omega arith) (TextLen-tail m s t n k (omega arith) l)))

-- On a memory of bytes, for a source apart from the buffer, `safestrcpy` with room for at least
-- one byte returns `os` and leaves a terminated string: the text of `t`, cut to `n - 1` bytes,
-- and a zero. Nothing outside the `n` bytes changes.
pub safestrcpy-IsTerminated :
    (m : Mem) (s t n k : ℕ)
    → 0 < n
    → IsBytes m
    → Apart s n t n
    → TextLen m t (n - 1) k
    → ((safestrcpy m s t (pos n)).0 ≡ s) × IsTerminated m s t n k (safestrcpy m s t (pos n)).1
unfolding safestrcpy
safestrcpy-IsTerminated m s t zero k h bytes apart l = absurd (omega arith)
safestrcpy-IsTerminated m s t (suc n) k h bytes apart l =
    let run : safestrcpy m s t (pos (suc n)) ≡ (s, safestrcpy_loop m s t n) = ground arith in
    rw run (
      refl,
      safestrcpy_loop-IsTerminated n m s t k bytes apart
          (subst (λ j. TextLen m t j k) (omega arith) l),
    )

-- Without room it changes nothing.
pub safestrcpy_no_room : (m : Mem) (s t : ℕ) (n : ℤ) → pos_part n ≡ 0 → safestrcpy m s t n ≡ (s, m)
unfolding safestrcpy
safestrcpy_no_room m s t n h = ground arith
