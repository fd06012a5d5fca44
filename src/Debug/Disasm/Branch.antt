-- ===== src/Debug/Disasm/Branch.antt =====
-- The targets of relative branches against the assembler's encoding of them.
use bb6502_verilog.Common.{ℕ, ◌+◌, ◌-◌, ◌%◌, ◌^◌, ◌<◌, ◌≤◌, ◌≡◌, ◌⊎◌, arith}
use bb6502_verilog.Debug.Disasm.{target}

-- How far `t` lies behind `at`, modulo 2 ^ 16.
abbrev pub distance : ℕ → ℕ → ℕ
distance at t = (t + 2 ^ 16 - at % 2 ^ 16) % 2 ^ 16

-- The operand byte that an assembler emits for a branch to `t` whose next instruction is at `at`.
unfoldable pub encode : ℕ → ℕ → ℕ
encode at t = distance at t % 256

-- At most 127 bytes forward or 128 back.
abbrev pub InReach : ℕ → ℕ → Type 0
InReach at t = (distance at t < 128) ⊎ (2 ^ 16 - 128 ≤ distance at t)

-- The displayed target of every operand byte is in reach, and encodes to that byte again.
pub encode-target : (at b : ℕ) → b < 256 → InReach at (target at b) × (encode at (target at b) ≡ b)
unfolding target encode
encode-target at b h = ground arith

-- Every 16-bit address in reach is displayed when the assembler's byte for it is disassembled.
pub target-encode : (at t : ℕ) → t < 2 ^ 16 → InReach at t → target at (encode at t) ≡ t
unfolding target encode
target-encode at t h r = ground arith
