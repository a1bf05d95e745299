-- ===== src/Wire/Bytes.antt =====
-- Words and C strings in memory, as src/remote_multiclass_identity.cpp and
-- src/multipet_spawn_observer.cpp read them.
use eqemu_monomyth_client.Prelude.{ℕ, zero, suc, ◌+◌, ◌*◌, ◌^◌, ◌!=◌, List, [], ◌∷◌, if◌then◌else◌}

-- The byte at each offset from the payload's pointer. Every byte can be read: these parsers do not
-- catch faults, and a read of a byte that is not there is not modelled.
abbrev pub Memory : Type 0
Memory = ℕ → ℕ

-- What `std::memcpy` into a `std::uint32_t` reads on the little-endian target.
abbrev pub word_at : Memory → ℕ → ℕ
word_at payload offset =
    payload offset
    + payload (offset + 1) * 2 ^ 8
    + payload (offset + 2) * 2 ^ 16
    + payload (offset + 3) * 2 ^ 24

-- `while (cursor < payload_length && payload[cursor] != 0) ++cursor;` with `left` bytes before
-- the payload's end.
unfoldable pub text_end : Memory → ℕ → ℕ → ℕ
text_end payload zero cursor = cursor
text_end payload (suc left) cursor =
    let later = text_end payload left (cursor + 1) in if payload cursor != 0 then later else cursor

-- `value_out->assign(payload + start, payload + start + n)`.
unfoldable pub bytes_at : Memory → ℕ → ℕ → List ℕ
bytes_at payload start zero = []
bytes_at payload start (suc n) = payload start ∷ bytes_at payload (start + 1) n
