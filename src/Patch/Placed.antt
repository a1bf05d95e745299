-- ===== src/Patch/Placed.antt =====
-- What a detour that was put in is: a jump to the hook, and a trampoline that runs the overwritten
-- instructions and jumps back behind them.
use mathlib.Core.Path.{subst}
use eqemu_monomyth_client.Prelude.{
  ℕ, ◌+◌, ◌-◌, ◌≤◌, ◌≡◌, ◌∙◌, ◌⊎◌, sym, ap, inl, inr, true, List, ◌++◌, replicate, take, length,
  length-append, length-replicate, take-length-append, arith,
}
use eqemu_monomyth_client.Wire.Bytes.{Memory, bytes_at}
use eqemu_monomyth_client.Wire.Layout.{Lays, Lays-append_left, bytes_at-Lays}
use eqemu_monomyth_client.Patch.Resolve.{LeadsTo}
use eqemu_monomyth_client.Patch.Memory.{
  write_bytes, Outside, write_bytes-Outside, Lays-write_bytes, Lays-apart, length-bytes_at,
  bytes_at-Lays_self,
}
use eqemu_monomyth_client.Patch.Detour.{InlineDetour, write_trampoline, write_patch, copy_to_front}

-- Regions of `n` and `k` bytes that have no byte in common.
abbrev pub Apart : ℕ → ℕ → ℕ → ℕ → Type 0
Apart a n b k = (a + n ≤ b) ⊎ (b + k ≤ a)

-- A detour from `target` to `hook` of `k` bytes, with its trampoline at `t`, was put in; `before`
-- was the memory, `detour` describes it and `m` is the memory now.
pub record Placed (before m : Memory) (detour : InlineDetour) (target hook k t : ℕ) : Type 0 where
  pub jump : List ℕ
  pub jumps : Lays m target jump
  pub to_hook : LeadsTo 0xe9 target hook jump
  pub stolen : Lays m t (bytes_at before target k)
  pub back : List ℕ
  pub jumps_back : Lays m (t + k) back
  pub to_target : LeadsTo 0xe9 (t + k) (target + k) back
  pub elsewhere : (i : ℕ) → Outside target k i → Outside t (k + 5) i → m i ≡ before i
  pub at_target : detour.target ≡ target
  pub at_trampoline : detour.trampoline ≡ t
  pub of_length : detour.patch_length ≡ k
  pub remembers : take k detour.original ≡ bytes_at before target k
  pub is_installed : detour.installed ≡ true

pub length-built :
    (site dest : ℕ) (bytes : List ℕ) → LeadsTo 0xe9 site dest bytes → length bytes ≡ 5
length-built site dest bytes (offset, e, small, leads) = ap length e

pub trampoline-Outside :
    (before : Memory) (target k t : ℕ) (back : List ℕ)
    → length back ≡ 5
    → (i : ℕ) → Outside t (k + 5) i
    → write_trampoline before t target k back i ≡ before i
trampoline-Outside before target k t back back_size i out =
    let stolen = bytes_at before target k in
    write_bytes-Outside (write_bytes before t stolen) (t + k) i back (behind out)
    ∙ write_bytes-Outside before t i stolen (in_front out)
  where
    behind : Outside t (k + 5) i → Outside (t + k) (length back) i
    behind (inl b) = inl (omega arith)
    behind (inr b) = inr (omega (arith, back_size, b))

    in_front : Outside t (k + 5) i → Outside t (length (bytes_at before target k)) i
    in_front (inl b) = inl b
    in_front (inr b) = inr (omega (arith, length-bytes_at before target k, b))

module _ (before : Memory) (target hook k t : ℕ) (to_hook back : List ℕ) (low : 5 ≤ k)
    (apart : Apart target k t (k + 5)) (jump_size : length to_hook ≡ 5)
    (back_size : length back ≡ 5) where
  abbrev pub trampoline_memory : Memory
  trampoline_memory = write_trampoline before t target k back

  abbrev pub patched_memory : Memory
  patched_memory = write_patch trampoline_memory target k to_hook

  abbrev pub patch_bytes : List ℕ
  patch_bytes = to_hook ++ replicate (k - 5) 0x90

  length-patch_bytes : length patch_bytes ≡ k
  length-patch_bytes = omega (
    arith,
    length-append to_hook (replicate (k - 5) 0x90),
    length-replicate {A = ℕ} (k - 5) 0x90,
    low,
    jump_size,
  )

  abbrev pub stolen_bytes : List ℕ
  stolen_bytes = bytes_at before target k

  length-stolen : length stolen_bytes ≡ k
  length-stolen = length-bytes_at before target k

  pub patched-Outside :
      (i : ℕ) → Outside target k i → Outside t (k + 5) i → patched_memory i ≡ before i
  patched-Outside i out_target out_trampoline =
      write_bytes-Outside trampoline_memory target i patch_bytes
        (subst (λ n. Outside target n i) (sym length-patch_bytes) out_target)
      ∙ trampoline-Outside before target k t back back_size i out_trampoline

  -- What lies in the trampoline is not reached by the patch of the target.
  keeps_trampoline :
      (c : ℕ) (bytes : List ℕ)
      → t ≤ c
      → c + length bytes ≤ t + (k + 5)
      → Lays trampoline_memory c bytes
      → Lays patched_memory c bytes
  keeps_trampoline c bytes lo hi =
      Lays-apart trampoline_memory target c patch_bytes bytes (elim apart [
        | inl first ↦ inr (omega (arith, first, lo, length-patch_bytes))
        | inr second ↦ inl (omega (arith, second, hi))
      ])

  pub patched-stolen : Lays patched_memory t stolen_bytes
  patched-stolen = keeps_trampoline t stolen_bytes (omega arith) (omega (arith, length-stolen)) (
      Lays-apart (write_bytes before t stolen_bytes) (t + k) t back stolen_bytes
        (inl (omega (arith, length-stolen))) (Lays-write_bytes before t stolen_bytes))

  pub patched-back : Lays patched_memory (t + k) back
  patched-back =
      keeps_trampoline (t + k) back (omega arith) (omega (arith, back_size))
        (Lays-write_bytes (write_bytes before t stolen_bytes) (t + k) back)

  pub patched-jump : Lays patched_memory target to_hook
  patched-jump =
      Lays-append_left patched_memory target to_hook (replicate (k - 5) 0x90)
        (Lays-write_bytes trampoline_memory target patch_bytes)

  pub target_bytes : bytes_at trampoline_memory target k ≡ bytes_at before target k
  target_bytes =
      ap (bytes_at trampoline_memory target) (sym length-stolen)
      ∙ bytes_at-Lays trampoline_memory target stolen_bytes (
          Lays-apart (write_bytes before t stolen_bytes) (t + k) target back stolen_bytes
            (behind apart)
            (Lays-apart before t target stolen_bytes stolen_bytes (in_front apart)
              (bytes_at-Lays_self before target k)))
    where
      behind :
          Apart target k t (k + 5)
          → (target + length stolen_bytes ≤ t + k) ⊎ (t + k + length back ≤ target)
      behind (inl first) = inl (omega (arith, first, length-stolen))
      behind (inr second) = inr (omega (arith, second, back_size))

      in_front :
          Apart target k t (k + 5)
          → (target + length stolen_bytes ≤ t) ⊎ (t + length stolen_bytes ≤ target)
      in_front (inl first) = inl (omega (arith, first, length-stolen))
      in_front (inr second) = inr (omega (arith, second, length-stolen))

pub take-copy_to_front :
    (array bytes : List ℕ) (k : ℕ) → length bytes ≡ k → take k (copy_to_front array bytes) ≡ bytes
take-copy_to_front array bytes k e =
    ap (λ n. take n (copy_to_front array bytes)) (sym e) ∙ take-length-append bytes _
