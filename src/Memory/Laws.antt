-- ===== src/Memory/Laws.antt =====
-- What a store changes, and what a load reads back.
use native.Mathlib.Nat.{pow-suc}
use rt.Prelude.{ℕ, zero, suc, ◌+◌, ◌/◌, ◌%◌, ◌^◌, ◌≤◌, ◌<◌, ◌≡◌, refl, ◌⊎◌, arith, ◌∙◌}
use rt.Memory.{Mem, write, load, store}

-- Every cell holds a byte.
abbrev pub IsBytes : Mem → Type 0
IsBytes m = (a : ℕ) → m a < 256

-- `b` is none of the `n` addresses from `a`.
abbrev pub Outside : ℕ → ℕ → ℕ → Type 0
Outside a n b = (b < a) ⊎ (a + n ≤ b)

-- Two memories agree on the `n` addresses from `a`.
abbrev pub SameOn : ℕ → ℕ → Mem → Mem → Type 0
SameOn a n m m' = (b : ℕ) → a ≤ b → b < a + n → m b ≡ m' b

-- They agree everywhere else.
abbrev pub SameBut : ℕ → ℕ → Mem → Mem → Type 0
SameBut a n m m' = (b : ℕ) → Outside a n b → m' b ≡ m b

pub write_self : (m : Mem) (a v : ℕ) → write m a v a ≡ v % 256
unfolding write
write_self m a v = ground arith

pub write_ne : (m : Mem) (a v b : ℕ) → Outside a 1 b → write m a v b ≡ m b
unfolding write
write_ne m a v b h = ground arith

pub write-IsBytes : (m : Mem) (a v : ℕ) → IsBytes m → IsBytes (write m a v)
unfolding write
write-IsBytes m a v h b = ground (arith, h b)

-- A store touches its own bytes only.
pub store_frame : (n : ℕ) (m : Mem) (a v : ℕ) → SameBut a n m (store n m a v)
unfolding store
store_frame zero m a v b h = refl
store_frame (suc n) m a v b h =
    store_frame n (write m a v) (a + 1) (v / 256) b (omega arith) ∙ write_ne m a v b (omega arith)

pub store-IsBytes : (n : ℕ) (m : Mem) (a v : ℕ) → IsBytes m → IsBytes (store n m a v)
unfolding store
store-IsBytes zero m a v h = h
store-IsBytes (suc n) m a v h =
    store-IsBytes n (write m a v) (a + 1) (v / 256) (write-IsBytes m a v h)

-- A load depends on its own bytes only.
pub load_ext : (n : ℕ) (m m' : Mem) (a : ℕ) → SameOn a n m m' → load n m a ≡ load n m' a
unfolding load
load_ext zero m m' a h = refl
load_ext (suc n) m m' a h = omega (
  arith,
  h a (omega arith) (omega arith),
  load_ext n m m' (a + 1) (λ b p q. h b (omega arith) (omega arith)),
)

-- A word that fits comes back from the address where it was stored.
pub load-store_self : (n : ℕ) (m : Mem) (a v : ℕ) → v < 256 ^ n → load n (store n m a v) a ≡ v
unfolding load store
load-store_self zero m a v h = omega arith
load-store_self (suc n) m a v h = omega (
  arith,
  store_frame n (write m a v) (a + 1) (v / 256) a (omega arith),
  write_self m a v,
  load-store_self n (write m a v) (a + 1) (v / 256) (omega (arith, pow-suc 256 n)),
)

-- A word elsewhere is not changed by a store.
pub load-store_ne :
    (n k : ℕ) (m : Mem) (a v b : ℕ)
    → (b + k ≤ a) ⊎ (a + n ≤ b)
    → load k (store n m a v) b ≡ load k m b
load-store_ne n k m a v b h = load_ext k _ _ b (λ c p q. store_frame n m a v c (omega arith))

-- A loaded word fits its width.
pub load-lt : (n : ℕ) (m : Mem) (a : ℕ) → IsBytes m → load n m a < 256 ^ n
unfolding load
load-lt zero m a h = omega arith
load-lt (suc n) m a h = omega (arith, h a, pow-suc 256 n, load-lt n m (a + 1) h)

-- A word of zero bytes is zero.
pub load-zero : (n : ℕ) (m : Mem) (a : ℕ) → ((b : ℕ) → a ≤ b → b < a + n → m b ≡ 0) → load n m a ≡ 0
unfolding load
load-zero zero m a h = refl
load-zero (suc n) m a h = omega (
  arith,
  h a (omega arith) (omega arith),
  load-zero n m (a + 1) (λ b p q. h b (omega arith) (omega arith)),
)
