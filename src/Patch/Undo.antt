-- ===== src/Patch/Undo.antt =====
-- Call sites and bytes that were patched: what the patch does, and what taking it out gives back.
use Prim.Native.String.{String}
use mathlib.Core.Path.{subst}
use eqemu_monomyth_client.Prelude.{
  ℕ, ◌^◌, ◌<◌, ◌≡◌, ◌∙◌, refl, sym, ap, inl, inr, Bool, true, false, Bool-cases, not, ltb, ◌==◌,
  ◌!=◌, ◌||◌, List, some, Option-cases, take, length, eq_bytes, eq_bytes_iff, arith,
}
use eqemu_monomyth_client.Wire.Bytes.{Memory, bytes_at}
use eqemu_monomyth_client.Patch.Jump.{shifted, resolve_relative_call, build_relative_call}
use eqemu_monomyth_client.Patch.Resolve.{
  build_relative_call_length, resolve_relative_call-build_relative_call,
}
use eqemu_monomyth_client.Patch.Memory.{
  write_bytes, Outside, write_bytes-Outside, Lays-write_bytes, length-bytes_at,
}
use eqemu_monomyth_client.Patch.Detour.{Process}
use eqemu_monomyth_client.Patch.Placed.{take-copy_to_front}
use eqemu_monomyth_client.Patch.Sites.{
  CallsitePatch, BytePatch, blank_callsite_patch, blank_byte_patch, install_callsite_patch,
  remove_callsite_patch, try_write_bytes, install_byte_patch, remove_byte_patch,
}
use eqemu_monomyth_client.Patch.Removed.{write_back}

-- What a callsite calls: where its bytes are a relative call.
abbrev pub Calls : Memory → ℕ → ℕ → Type 0
Calls m callsite target =
    resolve_relative_call (shifted m callsite) 5 callsite
    ≡ record { call_site = callsite; target = target; resolved = true }

resolve_relative_call-Calls :
    (m : Memory) (callsite expected : ℕ)
    → (let r = resolve_relative_call (shifted m callsite) 5 callsite in
        not r.resolved || r.target != expected)
      ≡ false
    → Calls m callsite expected
unfolding resolve_relative_call
resolve_relative_call-Calls m callsite expected h = ground arith

-- What InstallCallsitePatch leaves where it puts in a patch.
abbrev pub Patched : Process → (Process × CallsitePatch) × Bool → ℕ → ℕ → ℕ → ℕ → Type 0
Patched p r callsite hook expected i =
    Calls p.memory callsite expected
    × Calls r.0.0.memory callsite hook
    × (r.0.1.address ≡ callsite)
    × (r.0.1.installed ≡ true)
    × (r.0.1.original ≡ bytes_at p.memory callsite 5)
    × (r.0.0.allocations ≡ p.allocations)
    × (Outside callsite 5 i → r.0.0.memory i ≡ p.memory i)

-- A callsite that was patched called what was expected, and calls the hook; its five bytes are
-- remembered and all others are as they were. For addresses of 32 bits.
pub install_callsite_patch-Patched :
    (protect : ℕ → ℕ → Bool) (p : Process) (callsite hook expected i : ℕ) (patch : CallsitePatch)
    (label : String)
    → callsite < 2 ^ 32
    → hook < 2 ^ 32
    → (install_callsite_patch protect p callsite hook expected patch label).1 ≡ true
    → Patched p
        (install_callsite_patch protect p callsite hook expected patch label)
        callsite
        hook
        expected
        i
unfolding install_callsite_patch
install_callsite_patch-Patched protect p callsite hook expected i patch label hs hh done =
    let r = resolve_relative_call (shifted p.memory callsite) 5 callsite in
    elim (Bool-cases (callsite == 0 || hook == 0 || patch.installed)) [
      | inl bad ↦ absurd (ground (arith, done, bad))
      | inr good ↦ elim (Bool-cases (not r.resolved || r.target != expected)) [
        | inl other ↦ absurd (ground (arith, done, good, other))
        | inr same ↦ elim (Option-cases (build_relative_call callsite hook)) [
          | inl far ↦ absurd (ground (arith, done, good, same, far))
          | inr (call, built) ↦ elim (Bool-cases (protect callsite 5)) [
            | inr kept ↦ absurd (ground (arith, done, good, same, built, kept))
            | inl writable ↦
                let size = build_relative_call_length callsite hook call built in
                rw (good, same, built, writable)
                  (
                    resolve_relative_call-Calls p.memory callsite expected same,
                    resolve_relative_call-build_relative_call (write_bytes p.memory callsite call)
                        callsite hook call hs hh built (Lays-write_bytes p.memory callsite call),
                    refl,
                    refl,
                    refl,
                    refl,
                    λ out.
                        write_bytes-Outside p.memory callsite i call
                          (subst (λ n. Outside callsite n i) (sym size) out),
                  )
          ]
        ]
      ]
    ]

-- A patch of a callsite that is taken out gives back every byte of memory, and leaves the patch
-- blank. For addresses of 32 bits, and a callsite that VirtualProtect makes writable.
pub remove-install_callsite_patch :
    (protect : ℕ → ℕ → Bool) (p : Process) (callsite hook expected i : ℕ) (patch : CallsitePatch)
    (label : String)
    → callsite < 2 ^ 32
    → hook < 2 ^ 32
    → protect callsite 5 ≡ true
    → (install_callsite_patch protect p callsite hook expected patch label).1 ≡ true
    → let r = install_callsite_patch protect p callsite hook expected patch label in
      let q = remove_callsite_patch protect r.0.0 r.0.1 in
      (q.1 ≡ true) × (q.0.1 ≡ blank_callsite_patch) × (q.0.0.memory i ≡ p.memory i)
unfolding remove_callsite_patch
remove-install_callsite_patch protect p callsite hook expected i patch label hs hh writable done =
    let r = install_callsite_patch protect p callsite hook expected patch label in
    let (was, calls, at_callsite, installed, original, allocations, elsewhere) =
      install_callsite_patch-Patched protect p callsite hook expected i patch label hs hh done in
    rw (installed, at_callsite, writable, original)
      (refl, refl, write_back p.memory r.0.0.memory callsite 5 i elsewhere)

length-live :
    (m : Memory) (a n : ℕ) (expected : List ℕ)
    → eq_bytes (bytes_at m a n) expected ≡ true
    → length expected ≡ n
length-live m a n expected same =
    ap length (sym ((eq_bytes_iff (bytes_at m a n) expected).0 same)) ∙ length-bytes_at m a n

-- What InstallBytePatch leaves where it puts in a patch.
abbrev pub BytesPatched : Process → (Process × BytePatch) × Bool → ℕ → List ℕ → List ℕ → ℕ → Type 0
BytesPatched p r address expected replacement n =
    (bytes_at p.memory address n ≡ expected)
    × (r.0.0.memory ≡ write_bytes p.memory address replacement)
    × (r.0.1.address ≡ address)
    × (r.0.1.length ≡ n)
    × (r.0.1.installed ≡ true)
    × (take n r.0.1.original ≡ expected)
    × ((address == 0) ≡ false)
    × ((n == 0) ≡ false)

try_write_bytes_lem :
    (protect : ℕ → ℕ → Bool) (m : Memory) (a : ℕ) (bytes : List ℕ) (written : Memory)
    → try_write_bytes protect m a bytes ≡ some written
    → written ≡ write_bytes m a bytes
unfolding try_write_bytes
try_write_bytes_lem protect m a bytes written h = elim (Bool-cases (a == 0 || length bytes == 0)) [
  | inl bad ↦ absurd (ground (arith, h, bad))
  | inr good ↦ elim (Bool-cases (protect a (length bytes))) [
    | inl writable ↦ cc (h, good, writable)
    | inr kept ↦ absurd (ground (arith, h, good, kept))
  ]
]

pub install_byte_patch-BytesPatched :
    (readable protect : ℕ → ℕ → Bool) (p : Process) (address n : ℕ) (expected replacement : List ℕ)
    (patch : BytePatch) (label : String)
    → (install_byte_patch readable protect p address expected replacement n patch label).1 ≡ true
    → BytesPatched p
        (install_byte_patch readable protect p address expected replacement n patch label)
        address
        expected
        replacement
        n
unfolding install_byte_patch try_write_bytes
install_byte_patch-BytesPatched readable protect p address n expected replacement patch label done =
    elim (Bool-cases (address == 0 || patch.installed || n == 0 || ltb 16 n)) [
      | inl bad ↦ absurd (ground (arith, done, bad))
      | inr good ↦ elim (Bool-cases (readable address n)) [
        | inr faults ↦ absurd (ground (arith, done, good, faults))
        | inl read ↦ elim (Bool-cases (eq_bytes (bytes_at p.memory address n) expected)) [
          | inr other ↦ absurd (ground (arith, done, good, read, other))
          | inl same ↦ elim (Option-cases (try_write_bytes protect p.memory address replacement)) [
            | inl kept ↦ absurd (ground (arith, done, good, read, same, kept))
            | inr (memory, wrote) ↦
                let size = length-live p.memory address n expected same in
                rw (good, read, same, wrote)
                  (
                    (eq_bytes_iff (bytes_at p.memory address n) expected).0 same,
                    try_write_bytes_lem protect p.memory address replacement memory wrote,
                    refl,
                    refl,
                    refl,
                    take-copy_to_front patch.original expected n size,
                    ground (arith, good),
                    ground (arith, good),
                  )
          ]
        ]
      ]
    ]

-- A patch of bytes is put in only over the bytes that were expected, and taking it out gives back
-- every byte of memory and leaves the patch blank. For a replacement as long as the patch, and
-- bytes that VirtualProtect makes writable.
pub remove-install_byte_patch :
    (readable protect : ℕ → ℕ → Bool) (p : Process) (address n i : ℕ)
    (expected replacement : List ℕ) (patch : BytePatch) (label : String)
    → length replacement ≡ n
    → protect address n ≡ true
    → (install_byte_patch readable protect p address expected replacement n patch label).1 ≡ true
    → let r = install_byte_patch readable protect p address expected replacement n patch label in
      let q = remove_byte_patch protect r.0.0 r.0.1 in
      (bytes_at p.memory address n ≡ expected)
      × (q.1 ≡ true)
      × (q.0.1 ≡ blank_byte_patch)
      × (q.0.0.memory i ≡ p.memory i)
unfolding remove_byte_patch try_write_bytes
remove-install_byte_patch readable protect p address n i expected replacement patch label size
      writable done =
    let r = install_byte_patch readable protect p address expected replacement n patch label in
    let (live, memory, at_address, of_length, installed, original, there, some_bytes) =
      install_byte_patch-BytesPatched readable protect p address n expected replacement patch label
        done in
    let same : take n r.0.1.original ≡ bytes_at p.memory address n = original ∙ sym live in
    let count : length (bytes_at p.memory address n) ≡ n = length-bytes_at p.memory address n in
    let elsewhere : Outside address n i → r.0.0.memory i ≡ p.memory i = λ out.
      ap (λ m. m i) memory
      ∙ write_bytes-Outside p.memory address i replacement
          (subst (λ k. Outside address k i) (sym size) out) in
    rw (installed, of_length, at_address, same, there, count, some_bytes, writable)
      (live, refl, refl, write_back p.memory r.0.0.memory address n i elsewhere)
