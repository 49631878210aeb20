-- ===== src/Ps2/Controller/Decode.antt =====
-- lib/hid-8042/src/controller.rs: what the controller makes of the bytes of a command.
use hootux.Ps2.Controller.{
  Command, read_byte, write_byte, disable_port2, enable_port2, test_port2, test_controller,
  test_port1, diagnostic_dump, disable_port1, enable_port1, read_controller_input,
  copy_low_nibble_to_status, copy_high_nibble_to_status, read_controller_output,
  write_controller_output, write_byte_to_first_output, write_byte_to_second_output,
  write_to_second_input, pulse_output_pins, raw, send_raw, send_command,
}
use hootux.Prelude.{
  ℕ, ◌+◌, ◌-◌, ◌/◌, ◌%◌, ◌^◌, ◌<◌, ◌≡◌, refl, ap, ◌∙◌, ◌⊎◌, inl, inr, Bool-cases, ==→eq, ==→ne,
  ◌&&◌, Option, none, some, List, [], ◌∷◌, ltb, leb, ◌==◌, if◌then◌else◌, bits_and, bits_and_eight,
  arith,
}

-- The commands of the controller by their bytes: 0x20 and 0x60 start the ranges of the 32 bytes of
-- memory that the documentation allows.
bare : ℕ → Option Command
bare b =
    if leb 0x20 b && ltb b 0x40
    then some (read_byte (record { offset = b - 0x20 }))
    else if b == 0xa7
    then some disable_port2
    else if b == 0xa8
    then some enable_port2
    else if b == 0xa9
    then some test_port2
    else if b == 0xaa
    then some test_controller
    else if b == 0xab
    then some test_port1
    else if b == 0xac
    then some diagnostic_dump
    else if b == 0xad
    then some disable_port1
    else if b == 0xae
    then some enable_port1
    else if b == 0xc0
    then some read_controller_input
    else if b == 0xc1
    then some copy_low_nibble_to_status
    else if b == 0xc2
    then some copy_high_nibble_to_status
    else if b == 0xd0
    then some read_controller_output
    else none

with_data : ℕ → ℕ → Option Command
with_data b byte =
    if leb 0x60 b && ltb b 0x80
    then some (write_byte (record { offset = b - 0x60 }) byte)
    else if b == 0xd1
    then some (write_controller_output byte)
    else if b == 0xd2
    then some (write_byte_to_first_output byte)
    else if b == 0xd3
    then some (write_byte_to_second_output byte)
    else if b == 0xd4
    then some (write_to_second_input byte)
    else none

pub decode_writes : List (ℕ × ℕ) → Option Command
unfolding bare with_data
decode_writes ((port, b) ∷ []) = if port == 0x64 then bare b else none
decode_writes ((port, b) ∷ (port2, byte) ∷ []) =
    if port == 0x64 && port2 == 0x60 then with_data b byte else none
decode_writes _ = none

-- a command that is no pulse, and whose address, where it has one, is below 32
unfoldable pub IsDocumented : Command → Type 0
IsDocumented (read_byte a) = a.offset < 32
IsDocumented (write_byte a byte) = a.offset < 32
IsDocumented (pulse_output_pins payload) = ⊥
IsDocumented _ = Unit {0}

pulse_byte : (x : ℕ) → (bits_and 8 x 8 ≡ 0) ⊎ (bits_and 8 x 8 ≡ 8)
pulse_byte x = elim (Bool-cases (x / 8 % 2 == 0)) [
  | inl e ↦ inl (omega (arith, bits_and_eight x, ==→eq (x / 8 % 2) 0 e))
  | inr e ↦ inr (omega (arith, bits_and_eight x, ==→ne (x / 8 % 2) 0 e))
]

bare-none_low : bare 0 ≡ none
unfolding bare
bare-none_low = refl

bare-none_pulse : bare 8 ≡ none
unfolding bare
bare-none_pulse = refl

-- A pulse of any pins is sent as the byte 0 or the byte 8, neither of which is a command of the
-- controller.
pub send_command_pulse :
    (payload : ℕ)
    → ((send_command (pulse_output_pins payload) ≡ (0x64, 0) ∷ [])
        ⊎ (send_command (pulse_output_pins payload) ≡ (0x64, 8) ∷ []))
      × (decode_writes (send_command (pulse_output_pins payload)) ≡ none)
unfolding decode_writes send_command send_raw raw
send_command_pulse payload = elim (pulse_byte ((0xf0 + payload) % 2 ^ 8)) [
  | inl e ↦ (inl (ap (λ b. (0x64, b) ∷ []) e), ap bare e ∙ bare-none_low)
  | inr e ↦ (inr (ap (λ b. (0x64, b) ∷ []) e), ap bare e ∙ bare-none_pulse)
]
