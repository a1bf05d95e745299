-- ===== src/Patch/Memory.antt =====
-- Writes of bytes to memory, and what is read behind them.
use eqemu_monomyth_client.Prelude.{
  ℕ, zero, suc, ◌+◌, ◌-◌, ◌≤◌, ◌<◌, ◌≡◌, ◌∙◌, ◌⊎◌, refl, sym, ap, inl, inr, true, ltb, leb, ◌&&◌,
  List, [], ◌∷◌, length, get_or, arith, if◌then◌else◌,
}
use eqemu_monomyth_client.Wire.Bytes.{Memory, bytes_at}
use eqemu_monomyth_client.Wire.Layout.{Lays}

-- `std::memcpy(address, bytes, length)`.
unfoldable pub write_bytes : Memory → ℕ → List ℕ → Memory
write_bytes m address bytes i =
    if leb address i && ltb i (address + length bytes) then get_or bytes (i - address) 0 else m i

-- Outside of `n` bytes from an address.
abbrev pub Outside : ℕ → ℕ → ℕ → Type 0
Outside address n i = (i < address) ⊎ (address + n ≤ i)

pub write_bytes-Outside :
    (m : Memory) (a i : ℕ) (bytes : List ℕ)
    → Outside a (length bytes) i
    → write_bytes m a bytes i ≡ m i
unfolding write_bytes
write_bytes-Outside m a i bytes (inl before) = ground (arith, before)
write_bytes-Outside m a i bytes (inr behind) = ground (arith, behind)

pub write_bytes-inside :
    (m : Memory) (a j : ℕ) (bytes : List ℕ)
    → j < length bytes
    → write_bytes m a bytes (a + j) ≡ get_or bytes j 0
unfolding write_bytes
write_bytes-inside m a j bytes h =
    let low : leb a (a + j) ≡ true = ground arith in
    let high : ltb (a + j) (a + length bytes) ≡ true = ground (arith, h) in
    let offset : a + j - a ≡ j = omega arith in rw (low, high, offset)

-- Bytes that are read one by one are laid out.
Lays_pointwise :
    (m : Memory) (a : ℕ) (bytes : List ℕ)
    → ((j : ℕ) → j < length bytes → m (a + j) ≡ get_or bytes j 0)
    → Lays m a bytes
Lays_pointwise m a [] h = tt
Lays_pointwise m a (b ∷ bytes) h = (
  (let e : a + 0 ≡ a = omega arith in ap m (sym e)) ∙ h 0 (omega arith),
  Lays_pointwise m (a + 1) bytes
      (λ j lt. let e : a + 1 + j ≡ a + suc j = omega arith in ap m e ∙ h (suc j) (omega arith)),
)

pub Lays-write_bytes : (m : Memory) (a : ℕ) (bytes : List ℕ) → Lays (write_bytes m a bytes) a bytes
Lays-write_bytes m a bytes = Lays_pointwise _ a bytes (λ j lt. write_bytes-inside m a j bytes lt)

pub length-bytes_at : (m : Memory) (a n : ℕ) → length (bytes_at m a n) ≡ n
unfolding bytes_at
length-bytes_at m a zero = refl
length-bytes_at m a (suc n) = ap suc (length-bytes_at m (a + 1) n)

pub get_or-bytes_at : (m : Memory) (a n j : ℕ) → j < n → get_or (bytes_at m a n) j 0 ≡ m (a + j)
unfolding bytes_at
get_or-bytes_at m a zero j h = absurd (omega arith)
get_or-bytes_at m a (suc n) zero h = let e : a ≡ a + 0 = omega arith in ap m e
get_or-bytes_at m a (suc n) (suc j) h =
    let e : a + 1 + j ≡ a + suc j = omega arith in
    get_or-bytes_at m (a + 1) n j (omega arith) ∙ ap m e

-- A write does not reach bytes that lie apart from it.
pub Lays-apart :
    (m : Memory) (a c : ℕ) (bytes others : List ℕ)
    → (c + length others ≤ a) ⊎ (a + length bytes ≤ c)
    → Lays m c others
    → Lays (write_bytes m a bytes) c others
Lays-apart m a c bytes [] apart lays = tt
Lays-apart m a c bytes (b ∷ others) apart lays = (
  write_bytes-Outside m a c bytes (here apart) ∙ lays.0,
  Lays-apart m a (c + 1) bytes others (next apart) lays.1,
)
  where
    here : (c + suc (length others) ≤ a) ⊎ (a + length bytes ≤ c) → Outside a (length bytes) c
    here (inl before) = inl (omega arith)
    here (inr behind) = inr behind

    next :
        (c + suc (length others) ≤ a) ⊎ (a + length bytes ≤ c)
        → (c + 1 + length others ≤ a) ⊎ (a + length bytes ≤ c + 1)
    next (inl before) = inl (omega arith)
    next (inr behind) = inr (omega arith)

pub bytes_at-Lays_self : (m : Memory) (a n : ℕ) → Lays m a (bytes_at m a n)
unfolding bytes_at
bytes_at-Lays_self m a zero = tt
bytes_at-Lays_self m a (suc n) = (refl, bytes_at-Lays_self m (a + 1) n)
