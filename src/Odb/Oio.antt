-- ===== src/Odb/Oio.antt =====
-- The two function pointers of `struct _oio` that odb.c calls, and what it relies on. The file
-- backend's fread and fwrite are outside the repository; `IsStream` states what they promise.
use latte_c.Prelude.{
  ℕ, zero, suc, Option, none, some, ◌+◌, ◌≤◌, ◌<◌, ◌^◌, ◌≡◌, ◌≢◌, List, ◌++◌, length, take, drop,
}

-- `read(o, buf, len)` returns a count and fills `buf`; `write(o, buf, len)` returns a count.
pub record OioBackend {ℓ} (S : Type ℓ) : Type ℓ where
  pub read : S → ℕ → ℕ × List ℕ × S
  pub write : S → List ℕ → ℕ × S

-- A backend as a stream of bytes: those written so far, and those that a read is to get next. A
-- state is valid where the backend works on it; `size_t` counts the bytes.
pub record IsStream {ℓ} {S : Type ℓ} (b : OioBackend S) : Type (ℓ ⊔ 1) where
  pub Valid : S → Type 0
  pub content : S → List ℕ
  pub pending : S → List ℕ
  pub write_lem :
      (o : S) (bytes : List ℕ)
      → Valid o
      → length (content o) + length bytes < 2 ^ 64
      → (o' : S) × (b.write o bytes ≡ (length bytes, o'))
        × (content o' ≡ content o ++ bytes)
        × Valid o'
  pub read_lem :
      (o : S) (n : ℕ)
      → Valid o
      → n ≤ length (pending o)
      → (o' : S) × (b.read o n ≡ (n, take n (pending o), o'))
        × (pending o' ≡ drop n (pending o))
        × Valid o'
  pub read_short :
      (o : S) (n : ℕ)
      → Valid o
      → length (pending o) < n
      → (m : ℕ) × (bytes : List ℕ) × (o' : S) × (b.read o n ≡ (m, bytes, o')) × (m ≢ n)

-- A read that fails returns at once; its value goes to the next step otherwise.
infixl 5 ◌>>=◌
abbrev pub ◌>>=◌ {ℓ κ μ} :
    {S : Type ℓ} {A : Type κ} {B : Type μ} → Option A × S → (A → S → Option B × S) → Option B × S
(none, o) >>= f = (none, o)
(some a, o) >>= f = f a o

-- A write that returns 0 returns at once.
infixl 5 ◌>>◌
abbrev pub ◌>>◌ {ℓ} : {S : Type ℓ} → ℕ × S → (S → ℕ × S) → ℕ × S
(zero, o) >> k = (0, o)
(suc n, o) >> k = k o
