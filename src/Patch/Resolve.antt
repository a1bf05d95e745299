-- ===== src/Patch/Resolve.antt =====
-- A jump or call that was built leads to its destination.
use mathlib.Core.Path.{subst}
use native.Mathlib.Nat.{add-zero}
use eqemu_monomyth_client.Prelude.{
  ℕ, ◌+◌, ◌%◌, ◌^◌, ◌<◌, ◌≡◌, ap, inl, inr, true, false, Bool-cases, not, leb, ◌==◌, ◌||◌, List,
  ◌∷◌, none, some, length, arith, if◌then◌else◌,
}
use eqemu_monomyth_client.Prelude.Int.{ℤ, pos, negsuc}
use eqemu_monomyth_client.Wire.Bytes.{Memory, word_at}
use eqemu_monomyth_client.Wire.Layout.{Lays, word_bytes, word_at-word_bytes}
use eqemu_monomyth_client.AuthStats.Read.{Pages, safe_copy}
use eqemu_monomyth_client.AuthStats.Words as Words
use eqemu_monomyth_client.Patch.Jump.{
  difference, relative_offset_fits, int32_bits, build_relative_jump, build_relative_call,
  resolve_relative_call, try_copy_bytes, try_resolve_relative_jump_target, word_in, shifted,
}

-- The bits of an offset that fits are a 32-bit word, and adding them to the end of the
-- instruction wraps to the destination.
int32_bits-lt : (z : ℤ) → relative_offset_fits z ≡ true → int32_bits z < 2 ^ 32
unfolding relative_offset_fits
int32_bits-lt (pos n) h = ground arith
int32_bits-lt (negsuc n) h = ground arith

wraps_to :
    (site dest : ℕ)
    → site < 2 ^ 32
    → dest < 2 ^ 32
    → relative_offset_fits (difference dest (site + 5)) ≡ true
    → (site + 5 + int32_bits (difference dest (site + 5))) % 2 ^ 32 ≡ dest
unfolding relative_offset_fits
wraps_to site dest hs hd fits = elim (Bool-cases (leb (site + 5) dest)) [
  | inl ahead ↦ rw ahead (ground (arith, ahead))
  | inr behind ↦ rw behind (ground (arith, behind, fits))
]

-- What a built instruction consists of: its opcode, and the word that leads to the destination.
abbrev pub LeadsTo : ℕ → ℕ → ℕ → List ℕ → Type 0
LeadsTo opcode site dest bytes =
    (offset : ℕ) × (bytes ≡ opcode ∷ word_bytes offset)
    × (offset < 2 ^ 32)
    × ((site + 5 + offset) % 2 ^ 32 ≡ dest)

built-LeadsTo :
    (opcode site dest : ℕ) (bytes : List ℕ)
    → site < 2 ^ 32
    → dest < 2 ^ 32
    → (if site == 0 || dest == 0
        then none
        else if not (relative_offset_fits (difference dest (site + 5)))
        then none
        else some (opcode ∷ word_bytes (int32_bits (difference dest (site + 5)))))
      ≡ some bytes
    → LeadsTo opcode site dest bytes
built-LeadsTo opcode site dest bytes hs hd h = elim (Bool-cases (site == 0 || dest == 0)) [
  | inl bad ↦ absurd (ground (arith, h, bad))
  | inr good ↦ elim (Bool-cases (relative_offset_fits (difference dest (site + 5)))) [
    | inl fits ↦ (
      int32_bits (difference dest (site + 5)),
      ground (arith, h, good, fits),
      int32_bits-lt (difference dest (site + 5)) fits,
      wraps_to site dest hs hd fits,
    )
    | inr far ↦ absurd (ground (arith, h, good, far))
  ]
]

build_relative_jump-site :
    (site dest : ℕ) (bytes : List ℕ)
    → build_relative_jump site dest ≡ some bytes
    → (site == 0) ≡ false
unfolding build_relative_jump
build_relative_jump-site site dest bytes h = ground arith

pub build_relative_jump_length :
    (site dest : ℕ) (bytes : List ℕ) → build_relative_jump site dest ≡ some bytes → length bytes ≡ 5
unfolding build_relative_jump
build_relative_jump_length site dest bytes h = ground arith

build_relative_call-site :
    (site dest : ℕ) (bytes : List ℕ)
    → build_relative_call site dest ≡ some bytes
    → (site == 0) ≡ false
unfolding build_relative_call
build_relative_call-site site dest bytes h = ground arith

pub build_relative_call_length :
    (site dest : ℕ) (bytes : List ℕ) → build_relative_call site dest ≡ some bytes → length bytes ≡ 5
unfolding build_relative_call
build_relative_call_length site dest bytes h = ground arith

pub build_relative_jump-LeadsTo :
    (site dest : ℕ) (bytes : List ℕ)
    → site < 2 ^ 32
    → dest < 2 ^ 32
    → build_relative_jump site dest ≡ some bytes
    → LeadsTo 0xe9 site dest bytes
unfolding build_relative_jump
build_relative_jump-LeadsTo site dest bytes hs hd h = built-LeadsTo 0xe9 site dest bytes hs hd h

pub build_relative_call-LeadsTo :
    (site dest : ℕ) (bytes : List ℕ)
    → site < 2 ^ 32
    → dest < 2 ^ 32
    → build_relative_call site dest ≡ some bytes
    → LeadsTo 0xe8 site dest bytes
unfolding build_relative_call
build_relative_call-LeadsTo site dest bytes hs hd h = built-LeadsTo 0xe8 site dest bytes hs hd h

word_at_shift :
    (m : Memory) (site : ℕ) (bytes : List ℕ) (offset opcode : ℕ)
    → bytes ≡ opcode ∷ word_bytes offset
    → offset < 2 ^ 32
    → Lays m site bytes
    → (m site ≡ opcode) × (word_at m (site + 1) ≡ offset)
word_at_shift m site bytes offset opcode e lt lays =
    let laid = subst (Lays m site) e lays in
    (laid.0, word_at-word_bytes m (site + 1) offset lt laid.1)

-- A call that BuildRelativeCall built is read back as a call to its destination, where it is laid
-- at its site.
pub resolve_relative_call-build_relative_call :
    (m : Memory) (site dest : ℕ) (bytes : List ℕ)
    → site < 2 ^ 32
    → dest < 2 ^ 32
    → build_relative_call site dest ≡ some bytes
    → Lays m site bytes
    → resolve_relative_call (shifted m site) 5 site
      ≡ record { call_site = site; target = dest; resolved = true }
unfolding resolve_relative_call
resolve_relative_call-build_relative_call m site dest bytes hs hd built lays =
    let (offset, e, lt, leads) = build_relative_call-LeadsTo site dest bytes hs hd built in
    let (op, word) = word_at_shift m site bytes offset 0xe8 e lt lays in
    let start : m (site + 0) ≡ 0xe8 = rw add-zero op in
    let at2 : site + 1 + 1 ≡ site + (1 + 1) = omega arith in
    let at3 : site + 1 + 2 ≡ site + (1 + 2) = omega arith in
    let at4 : site + 1 + 3 ≡ site + (1 + 3) = omega arith in
    let same : word_at (shifted m site) 1 ≡ offset =
      omega (arith, word, ap m at2, ap m at3, ap m at4) in
    let there : (site == 0) ≡ false = build_relative_call-site site dest bytes built in
    rw (start, there, same, leads)

-- A jump that BuildRelativeJump built is read back as a jump to its destination.
pub try_resolve_relative_jump_target-build_relative_jump :
    (pages : Pages) (site dest : ℕ) (bytes : List ℕ)
    → site < 2 ^ 32
    → dest < 2 ^ 32
    → build_relative_jump site dest ≡ some bytes
    → Words.Lays pages site bytes
    → try_resolve_relative_jump_target pages site ≡ some dest
unfolding try_resolve_relative_jump_target try_copy_bytes safe_copy
try_resolve_relative_jump_target-build_relative_jump pages site dest bytes hs hd built lays =
    let (offset, e, lt, leads) = build_relative_jump-LeadsTo site dest bytes hs hd built in
    let read =
      Words.copy_bytes-Lays pages site (0xe9 ∷ word_bytes offset)
        (subst (Words.Lays pages site) e lays) in
    let word : word_in (0xe9 ∷ word_bytes offset) 1 ≡ offset = omega arith in
    let there : (site == 0) ≡ false = build_relative_jump-site site dest bytes built in
    rw (there, read, word, leads)
