-- ===== src/Str/Fill.antt =====
-- `memset` fills the bytes that it is given, by words or by bytes.
use mathlib.Core.Path.{subst}
use native.Mathlib.Decide.{dec_lt}
use rt.Prelude.{
  ℕ, zero, suc, ◌+◌, ◌*◌, ◌/◌, ◌%◌, ◌^◌, ◌≤◌, ◌<◌, ◌≡◌, refl, sym, ap, fun_ext, ◌∙◌, inl, inr, ◌&&◌,
  arith, ◌==◌, Bool-cases,
}
use rt.Bits.{bit_and-low, bit_or_fields}
use rt.Memory.{Mem, write, store}
use rt.Memory.Laws.{SameBut, write_self, write_ne, store_frame}
use rt.Str.{stosb, stosl, splat, memset}

-- Each of the `n` bytes from `a` is `v`, and no other byte has changed.
pub record IsFilled (m : Mem) (a n v : ℕ) (m' : Mem) : Type 0 where
  pub inside : (b : ℕ) → a ≤ b → b < a + n → m' b ≡ v
  pub outside : SameBut a n m m'

pub stosb-IsFilled : (n : ℕ) (m : Mem) (a v : ℕ) → IsFilled m a n (v % 256) (stosb m a v n)
unfolding stosb
stosb-IsFilled zero m a v = record { inside = λ b p q. absurd (omega arith); outside = λ b h. refl }
stosb-IsFilled (suc n) m a v =
    let rest = stosb-IsFilled n (write m a v) (a + 1) v in
    record {
      inside = λ b p q. ground (arith, rest.inside b, rest.outside b, write_self m a v);
      outside = λ b h. rest.outside b (omega arith) ∙ write_ne m a v b (omega arith);
    }

-- The four bytes of a splat.
splat-eq_mul : (c : ℕ) → c < 256 → splat c ≡ c * 16843009
unfolding splat
splat-eq_mul c h = ground (
  arith,
  bit_or_fields 24 c (c * 2 ^ 16) (omega arith),
  bit_or_fields 16 (c * 257) (c * 2 ^ 8) (omega arith),
  bit_or_fields 8 (c * 65793) c (omega arith),
)

-- Storing a splat writes the byte four times.
store-splat : (m : Mem) (a c : ℕ) → c < 256 → IsFilled m a 4 c (store 4 m a (splat c))
unfolding store write
store-splat m a c h = record {
  inside = λ b p q. ground (arith, splat-eq_mul c h);
  outside = store_frame 4 m a (splat c);
}

stosl-IsFilled :
    (n : ℕ) (m : Mem) (a c : ℕ) → c < 256 → IsFilled m a (n * 4) c (stosl m a (splat c) n)
unfolding stosl
stosl-IsFilled zero m a c h = record {
  inside = λ b p q. absurd (omega arith);
  outside = λ b h. refl;
}
stosl-IsFilled (suc n) m a c h =
    let first = store-splat m a c h in
    let rest = stosl-IsFilled n (store 4 m a (splat c)) (a + 4) c h in
    record {
      inside = λ b p q. ground (arith, rest.inside b, rest.outside b, first.inside b);
      outside = λ b o. rest.outside b (omega arith) ∙ first.outside b (omega arith);
    }

-- For a count that an `int` holds, `memset` returns `dst`, sets the `n` bytes from `dst` to the
-- low byte of `c` and changes no other, on the word path and on the byte path.
pub memset-IsFilled :
    (m : Mem) (dst c n : ℕ)
    → n < 2 ^ 31
    → ((memset m dst c n).0 ≡ dst) × IsFilled m dst n (c % 256) (memset m dst c n).1
unfolding memset
memset-IsFilled m dst c n h = elim (Bool-cases ((dst % 4 == 0) && (n % 4 == 0))) [
  | inl words ↦
      rw (words, bit_and-low 8 c)
        (
          refl,
          subst (λ k. IsFilled m dst k (c % 256) (stosl m dst (splat (c % 256)) (n / 4 % 2 ^ 32)))
              (ground arith) (stosl-IsFilled (n / 4 % 2 ^ 32) m dst (c % 256) (omega arith)),
        )
  | inr bytes ↦ rw bytes (
    refl,
    subst (λ k. IsFilled m dst k (c % 256) (stosb m dst c (n % 2 ^ 32))) (omega arith)
        (stosb-IsFilled (n % 2 ^ 32) m dst c),
  )
]

-- Two fills of the same bytes are the same memory.
IsFilled-unique :
    (m : Mem) (a n v : ℕ) (p q : Mem) → IsFilled m a n v p → IsFilled m a n v q → p ≡ q
IsFilled-unique m a n v p q f g = fun_ext λ b. elim (dec_lt b a) [
  | yes l ↦ f.outside b (inl l) ∙ sym (g.outside b (inl l))
  | no k ↦ elim (dec_lt b (a + n)) [
    | yes l ↦ f.inside b (omega arith) l ∙ sym (g.inside b (omega arith) l)
    | no l ↦ f.outside b (inr (omega arith)) ∙ sym (g.outside b (inr (omega arith)))
  ]
]

-- For a count that an `int` holds, `memset`, on its word path as well, is the same function as
-- storing the byte `n` times, and returns `dst`.
pub memset-stosb : (m : Mem) (dst c n : ℕ) → n < 2 ^ 31 → memset m dst c n ≡ (dst, stosb m dst c n)
memset-stosb m dst c n h =
    let f = memset-IsFilled m dst c n h in
    ap (λ a. (a, (memset m dst c n).1)) f.0
    ∙ ap (λ b. (dst, b))
        (IsFilled-unique m dst n (c % 256) (memset m dst c n).1 (stosb m dst c n) f.1
          (stosb-IsFilled n m dst c))
