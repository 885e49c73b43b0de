-- ===== src/Machine/Memory.antt =====
-- Byte-addressed memory with little-endian integers in it, `memset` and `memcpy`.
use comp304_assignments.Prelude.{
  ℕ, zero, suc, ◌+◌, ◌-◌, ◌*◌, ◌/◌, ◌%◌, ◌^◌, ◌≤◌, ◌<◌, ◌≡◌, refl, ◌∙◌, ◌⊎◌, ◌&&◌, arith, ltb, leb,
  ◌==◌, if◌then◌else◌, ap, le→leb, lt→ltb,
}

abbrev pub Memory : Type 0
Memory = ℕ → ℕ

unfoldable pub put : Memory → ℕ → ℕ → Memory
put m a v x = if a == x then v % 256 else m x

unfoldable pub load_bytes : ℕ → Memory → ℕ → ℕ
load_bytes zero m a = 0
load_bytes (suc k) m a = m a + 256 * load_bytes k m (suc a)

unfoldable pub store_bytes : ℕ → Memory → ℕ → ℕ → Memory
unfolding put
store_bytes zero m a v = m
store_bytes (suc k) m a v = store_bytes k (put m a v) (suc a) (v / 256)

unfoldable pub memset : Memory → ℕ → ℕ → ℕ → Memory
memset m a c n x = if leb a x && ltb x (a + n) then c % 256 else m x

unfoldable pub memcpy : Memory → ℕ → ℕ → ℕ → Memory
memcpy m dst src n x = if leb dst x && ltb x (dst + n) then m (src + (x - dst)) else m x

-- 256 ^ k, by its own recursion
abbrev span : ℕ → ℕ
span zero = 1
span (suc k) = 256 * span k

-- What is outside the bytes written stays.
pub store_bytes_outside :
    (k : ℕ) (m : Memory) (a v x : ℕ) → (x < a) ⊎ (a + k ≤ x) → store_bytes k m a v x ≡ m x
unfolding store_bytes
store_bytes_outside zero m a v x h = refl
store_bytes_outside (suc k) m a v x h =
    store_bytes_outside k (put m a v) (suc a) (v / 256) x (omega arith) ∙ ground arith

-- A load reads its own bytes only.
pub load_bytes_same :
    (k : ℕ) (m n : Memory) (a : ℕ)
    → ((x : ℕ) → a ≤ x → x < a + k → m x ≡ n x)
    → load_bytes k m a ≡ load_bytes k n a
unfolding load_bytes
load_bytes_same zero m n a h = refl
load_bytes_same (suc k) m n a h = omega (
  arith,
  h a (omega arith) (omega arith),
  load_bytes_same k m n (suc a) (λ x p q. h x (omega arith) (omega arith)),
)

pub load_bytes-store_bytes_apart :
    (k j : ℕ) (m : Memory) (a b v : ℕ)
    → (a + k ≤ b) ⊎ (b + j ≤ a)
    → load_bytes k (store_bytes j m b v) a ≡ load_bytes k m a
load_bytes-store_bytes_apart k j m a b v h =
    load_bytes_same k _ m a (λ x p q. store_bytes_outside j m b v x (omega arith))

load_bytes-store_bytes :
    (k : ℕ) (m : Memory) (a v : ℕ) → v < span k → load_bytes k (store_bytes k m a v) a ≡ v
unfolding load_bytes store_bytes
load_bytes-store_bytes zero m a v h = omega arith
load_bytes-store_bytes (suc k) m a v h = omega (
  arith,
  load_bytes-store_bytes k (put m a v) (suc a) (v / 256) (omega arith),
  store_bytes_outside k (put m a v) (suc a) (v / 256) a (omega arith),
  put_self,
)
  where
    put_self : put m a v a ≡ v % 256
    put_self = ground arith

-- The eight bytes of a `size_t` or a pointer.
unfoldable pub load64 : Memory → ℕ → ℕ
load64 = load_bytes 8

unfoldable pub store64 : Memory → ℕ → ℕ → Memory
store64 = store_bytes 8

module _ (m : Memory) (a v : ℕ) where
  pub load64-store64 : v < 2 ^ 64 → load64 (store64 m a v) a ≡ v
  unfolding load64 store64
  load64-store64 h = load_bytes-store_bytes 8 m a v (omega arith)

  pub load64-store64_apart :
      (b : ℕ) → (b + 8 ≤ a) ⊎ (a + 8 ≤ b) → load64 (store64 m a v) b ≡ load64 m b
  unfolding load64 store64
  load64-store64_apart b h = load_bytes-store_bytes_apart 8 8 m b a v (omega arith)

  pub store64_outside : (x : ℕ) → (x < a) ⊎ (a + 8 ≤ x) → store64 m a v x ≡ m x
  unfolding store64
  store64_outside x h = store_bytes_outside 8 m a v x h

pub memset_inside : (m : Memory) (a c n x : ℕ) → a ≤ x → x < a + n → memset m a c n x ≡ c % 256
unfolding memset
memset_inside m a c n x h h' = ground arith

pub memset_outside : (m : Memory) (a c n x : ℕ) → (x < a) ⊎ (a + n ≤ x) → memset m a c n x ≡ m x
unfolding memset
memset_outside m a c n x h = ground arith

pub memcpy_inside :
    (m : Memory) (dst src n i : ℕ) → i < n → memcpy m dst src n (dst + i) ≡ m (src + i)
unfolding memcpy
memcpy_inside m dst src n i h =
    rw (le→leb dst (dst + i) (omega arith), lt→ltb (dst + i) (dst + n) (omega arith))
      (ap (λ j. m (src + j)) (omega arith))

pub memcpy_outside :
    (m : Memory) (dst src n x : ℕ) → (x < dst) ⊎ (dst + n ≤ x) → memcpy m dst src n x ≡ m x
unfolding memcpy
memcpy_outside m dst src n x h = ground arith

pub load64_same :
    (m n : Memory) (a : ℕ) → ((x : ℕ) → a ≤ x → x < a + 8 → m x ≡ n x) → load64 m a ≡ load64 n a
unfolding load64
load64_same m n a h = load_bytes_same 8 m n a h
