-- ===== src/Codec/Opcode.antt =====
-- codec/opcode.go. `Opcode` is a `uint8`, so a reserved opcode is a value too.
use ews.Common.{ℕ, Bool, ◌==◌, ◌||◌}

abbrev pub Opcode : Type 0
Opcode = ℕ

abbrev pub continuation : Opcode
continuation = 0x0

abbrev pub text : Opcode
text = 0x1

abbrev pub binary : Opcode
binary = 0x2

abbrev pub close : Opcode
close = 0x8

abbrev pub ping : Opcode
ping = 0x9

abbrev pub pong : Opcode
pong = 0xA

-- The cases of the switches on an opcode.
unfoldable pub is_data : Opcode → Bool
is_data op = op == continuation || op == text || op == binary

unfoldable pub is_control : Opcode → Bool
is_control op = op == close || op == ping || op == pong
