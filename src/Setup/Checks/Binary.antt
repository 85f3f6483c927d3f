-- ===== src/Setup/Checks/Binary.antt =====
-- scripts/agent-setup.py: `validate_binary`.
use see_size.Base.{
  ℕ, ◌+◌, ◌*◌, ◌==◌, list_eq, nat_eq, string_eq, String, Bool, not, ◌||◌, [], ◌∷◌, ltb, length,
  take, drop,
}
use see_size.Fs.{Bytes}
use see_size.Script.{Machine, Result, value_error}
use see_size.Script.Checked.{◌>>◌, refuse_if}

-- `b'\x7fELF\x02\x01'`
abbrev pub elf_magic : Bytes
elf_magic = 0x7f ∷ b'E' ∷ b'L' ∷ b'F' ∷ 2 ∷ 1 ∷ []

-- `int.from_bytes(bytes, 'little')`
unfoldable pub from_bytes : Bytes → ℕ
from_bytes [] = 0
from_bytes (b ∷ bs) = b + 256 * from_bytes bs

-- Not a 64-bit little-endian ELF file for x86-64; 62 is that machine's number.
unfoldable pub not_elf : Bytes → Bool
not_elf body =
    ltb (length body) 20
    || not (take 6 body == elf_magic)
    || not (from_bytes (take 2 (drop 18 body)) == 62)

unfoldable pub validate_binary : Machine → Bytes → String → Result (Unit {0})
validate_binary m body expected = do
  refuse_if (not_elf body) (value_error "Not a Linux amd64 ELF binary")
  refuse_if (not (m.sha256 body == expected)) (value_error "SHA256 mismatch")
