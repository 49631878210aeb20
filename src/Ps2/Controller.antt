-- ===== src/Ps2/Controller.antt =====
-- lib/hid-8042/src/controller.rs: the commands of the controller and its ports.
-- The status and data bytes that the hardware would give are arguments; a write to a port is a pair of
-- the port and the byte.
pub mod Decode
mod Tests
use hootux.Prelude.{
  ℕ, ◌+◌, ◌%◌, ◌^◌, Option, none, some, List, [], ◌∷◌, ltb, ◌==◌, if◌then◌else◌, Result, ok, err,
  bits_and,
}

-- `Address`, by its byte; `Address::new`
pub record Address : Type 0 where
  pub offset : ℕ

pub address_new : ℕ → Option Address
address_new address = if ltb 32 address then none else some (record { offset = address })

-- `Address::try_from`
pub address_try_from : ℕ → Result (Unit {0}) Address
address_try_from byte = elim (address_new byte) [ none ↦ err tt | some a ↦ ok a ]

-- `Command`; the bits of `ControllerOutput` as they are.
pub data Command : Type 0 where
  read_byte : Address → Command
  write_byte : Address → ℕ → Command
  disable_port2 : Command
  enable_port2 : Command
  test_port2 : Command
  test_controller : Command
  test_port1 : Command
  diagnostic_dump : Command
  disable_port1 : Command
  enable_port1 : Command
  read_controller_input : Command
  copy_low_nibble_to_status : Command
  copy_high_nibble_to_status : Command
  read_controller_output : Command
  write_controller_output : ℕ → Command
  write_byte_to_first_output : ℕ → Command
  write_byte_to_second_output : ℕ → Command
  write_to_second_input : ℕ → Command
  pulse_output_pins : ℕ → Command

-- `RawCommand`
pub record RawCommand : Type 0 where
  pub first_byte : ℕ
  pub second_byte : Option ℕ

-- `n_command!`
abbrev one : ℕ → RawCommand
one b = record { first_byte = b; second_byte = none }

abbrev two : ℕ → ℕ → RawCommand
two b c = record { first_byte = b; second_byte = some c }

-- `RawCommand::from`
pub raw : Command → RawCommand
raw (read_byte addr) = one ((0x20 + addr.offset) % 2 ^ 8)
raw (write_byte addr byte) = two ((0x60 + addr.offset) % 2 ^ 8) byte
raw disable_port2 = one 0xa7
raw enable_port2 = one 0xa8
raw test_port2 = one 0xa9
raw test_controller = one 0xaa
raw test_port1 = one 0xab
raw diagnostic_dump = one 0xac
raw disable_port1 = one 0xad
raw enable_port1 = one 0xae
raw read_controller_input = one 0xc0
raw copy_low_nibble_to_status = one 0xc1
raw copy_high_nibble_to_status = one 0xc2
raw read_controller_output = one 0xd0
raw (write_controller_output payload) = two 0xd1 payload
raw (write_byte_to_first_output payload) = two 0xd2 payload
raw (write_byte_to_second_output payload) = two 0xd3 payload
raw (write_to_second_input payload) = two 0xd4 payload
raw (pulse_output_pins payload) = one (bits_and 8 ((0xf0 + payload) % 2 ^ 8) 8)

-- `PS2Controller::send_command`: the writes to the ports, in order.
pub send_raw : RawCommand → List (ℕ × ℕ)
send_raw c = elim c.second_byte [
  | none ↦ (0x64, c.first_byte) ∷ []
  | some b ↦ (0x64, c.first_byte) ∷ (0x60, b) ∷ []
]

pub send_command : Command → List (ℕ × ℕ)
send_command c = send_raw (raw c)

-- `PS2Controller::read_data`, where the status port reads as `status` and the data port as `data`
pub read_data : ℕ → ℕ → Option ℕ
read_data status byte = if bits_and 8 status 1 == 1 then some byte else none

-- `PS2Controller::send_data`, where the status port reads as `status`
pub send_data : ℕ → ℕ → Result (Unit {0}) (Unit {0}) × List (ℕ × ℕ)
send_data status byte =
    if bits_and 8 status 2 == 2 then (err tt, []) else (ok tt, (0x60, byte) ∷ [])
