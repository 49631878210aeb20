-- ===== src/Ps2/Keyboard.antt =====
-- lib/hid-8042/src/keyboard.rs: the commands of a keyboard as bytes, and its answers.
-- `none` is a panic. A byte of the source is a number below 256.
pub mod Encode
pub mod Answers
mod Tests
use hootux.Prelude.{
  ℕ, zero, suc, ◌*◌, ◌/◌, ◌%◌, ◌^◌, Bool, true, false, Option, none, some, List, [], ◌∷◌, ◌==◌,
  ◌||◌, if◌then◌else◌, get_elem?, Result, ok, err, ◌>>=◌, add64, sub64, bits_and, bits_or,
}

-- `ScanCodeSetSubcommand`, with the byte of each variant
pub data ScanCodeSetSubcommand : Type 0 where
  get_scan_code : ScanCodeSetSubcommand
  set_scancode_set_one : ScanCodeSetSubcommand
  set_scancode_set_two : ScanCodeSetSubcommand
  set_scancode_set_three : ScanCodeSetSubcommand

pub subcommand_byte : ScanCodeSetSubcommand → ℕ
subcommand_byte get_scan_code = 0
subcommand_byte set_scancode_set_one = 1
subcommand_byte set_scancode_set_two = 2
subcommand_byte set_scancode_set_three = 3

-- `Command`; the bits of `KeyboardLed`, the byte of `RepeatCtl` and the seven bytes of a key as they are.
pub data Command : Type 0 where
  set_led : ℕ → Command
  echo : Command
  scan_code_set : ScanCodeSetSubcommand → Command
  identify_device : Command
  repeat_ctl : ℕ → Command
  enable_scan : Command
  disable_scan : Command
  set_default_params : Command
  set_typmatic : Command
  make_release : Command
  make_only : Command
  set_typmatic_make_release : Command
  set_key_typmatic : List ℕ → Command
  set_key_make_release : List ℕ → Command
  set_key_make_only : List ℕ → Command
  resend : Command
  reset_and_bist : Command

-- `Command::command_byte`
pub command_byte : Command → ℕ
command_byte (set_led _) = 0xed
command_byte echo = 0xee
command_byte (scan_code_set _) = 0xf0
command_byte identify_device = 0xf2
command_byte (repeat_ctl _) = 0xf3
command_byte enable_scan = 0xf4
command_byte disable_scan = 0xf5
command_byte set_default_params = 0xf6
command_byte set_typmatic = 0xf7
command_byte make_release = 0xf8
command_byte make_only = 0xf9
command_byte set_typmatic_make_release = 0xfa
command_byte (set_key_typmatic _) = 0xfb
command_byte (set_key_make_release _) = 0xfc
command_byte (set_key_make_only _) = 0xfd
command_byte resend = 0xfe
command_byte reset_and_bist = 0xff

-- `CommandIter`
pub record CommandIter : Type 0 where
  pub index : ℕ
  pub command : Command

-- `Command::raw_iter`
pub raw_iter : Command → CommandIter
raw_iter c = record { index = 0; command = c }

-- an arm guarded by `index == 1`
first_only : ℕ → ℕ → Option ℕ
first_only index b = if index == 1 then some b else none

-- the arm of the three commands of one key: its guard indexes the array, and panics past its end.
key_byte : List ℕ → ℕ → Option (Option ℕ)
key_byte p index = do
  b ← get_elem? p (sub64 index 1)
  if b == 0 then some none else some (get_elem? p (sub64 index 1))

-- the `match` of `CommandIter::next`
payload_byte : Command → ℕ → Option (Option ℕ)
unfolding first_only key_byte
payload_byte (set_led p) index = some (first_only index p)
payload_byte (repeat_ctl p) index = some (first_only index p)
payload_byte (scan_code_set p) index = some (first_only index (subcommand_byte p))
payload_byte (set_key_make_only p) index = key_byte p index
payload_byte (set_key_typmatic p) index = key_byte p index
payload_byte (set_key_make_release p) index = key_byte p index
payload_byte _ index = some none

-- `CommandIter::next`: the item, and the iterator afterwards.
pub next : CommandIter → Option (Option ℕ × CommandIter)
unfolding payload_byte
next it = do
  item ←
      (if it.index == 0
        then some (some (command_byte it.command))
        else payload_byte it.command it.index)
  some (item, record it { index = add64 it.index 1 })

-- What `collect` over an iterator comes to; `no_fuel` is a model that stopped short of an end.
pub data Collected : Type 0 where
  collected : List ℕ → Collected
  panicked : Collected
  no_fuel : Collected

pub push_front : ℕ → Collected → Collected
push_front b (collected bytes) = collected (b ∷ bytes)
push_front b panicked = panicked
push_front b no_fuel = no_fuel

-- The loop of `collect` on fuel: it stops at the first `None`.
pub collect : ℕ → CommandIter → Collected
collect zero it = no_fuel
collect (suc fuel) it = elim (next it) [
  | none ↦ panicked
  | some (none, rest) ↦ collected []
  | some (some b, rest) ↦ push_front b (collect fuel rest)
]

-- `Response`, with the byte of each variant
pub data Response : Type 0 where
  resp_ack : Response
  resp_resend : Response
  resp_echo : Response
  bist_success : Response
  bist_failure : Response
  resp_error : Response

pub response_byte : Response → ℕ
response_byte resp_ack = 0xfa
response_byte resp_resend = 0xfe
response_byte resp_echo = 0xee
response_byte bist_success = 0xaa
response_byte bist_failure = 0xfc
response_byte resp_error = 0xff

-- `Response::try_from`
pub try_from : ℕ → Result (Unit {0}) Response
try_from value =
    if value == 0 || value == 0xff
    then ok resp_error
    else if value == 0xfa
    then ok resp_ack
    else if value == 0xfe
    then ok resp_resend
    else if value == 0xee
    then ok resp_echo
    else if value == 0xaa
    then ok bist_success
    else if value == 0xfc || value == 0xfd
    then ok bist_failure
    else err tt

-- `RepeatDelay`, with the number of each variant
pub data RepeatDelay : Type 0 where
  milis250 : RepeatDelay
  milis500 : RepeatDelay
  milis750 : RepeatDelay
  milis1000 : RepeatDelay

pub delay_byte : RepeatDelay → ℕ
delay_byte milis250 = 0
delay_byte milis500 = 1
delay_byte milis750 = 2
delay_byte milis1000 = 3

-- `RepeatCtl::new`: the byte of the result.
pub repeat_new : ℕ → RepeatDelay → Option ℕ
repeat_new rate delay =
    if bits_and 8 rate 0xe0 == 0
    then some (bits_or 8 (delay_byte delay * 2 ^ 5 % 2 ^ 8) rate)
    else none

-- the delay that `Debug` of `RepeatCtl` prints, and its rate
delay_of : ℕ → Option RepeatDelay
delay_of byte =
    if byte == 0
    then some milis250
    else if byte == 1
    then some milis500
    else if byte == 2
    then some milis750
    else if byte == 3
    then some milis1000
    else none

pub repeat_fmt : ℕ → Option (ℕ × RepeatDelay)
unfolding delay_of
repeat_fmt byte = do delay ← delay_of (byte / 2 ^ 4); some (bits_and 8 byte 0x1f, delay)
