-- ===== src/Ps2/Device.antt =====
-- lib/hid-8042/src/lib.rs: the type of a device by the two bytes it identifies itself with.
pub mod Classes
mod Tests
use hootux.Prelude.{ℕ, Bool, true, false, ◌==◌, ◌&&◌, if◌then◌else◌, Result, ok, err}

-- `DeviceType`
pub data DeviceType : Type 0 where
  ancient_ibm_keyboard : DeviceType
  standard_mouse : DeviceType
  mouse_with_scroll_wheel : DeviceType
  mouse5_button : DeviceType
  mf2_keyboard : DeviceType
  short_keyboard : DeviceType
  ncd97_or122_host_connect_keyboard : DeviceType
  key122 : DeviceType
  japanese_g_keyboard : DeviceType
  japanese_p_keyboard : DeviceType
  japanese_a_keyboard : DeviceType
  ncd_sun_keyboard : DeviceType
  unknown : DeviceType

-- `DeviceType::is_keyboard`
pub is_keyboard : DeviceType → Bool
is_keyboard standard_mouse = false
is_keyboard mouse_with_scroll_wheel = false
is_keyboard mouse5_button = false
is_keyboard unknown = false
is_keyboard _ = true

-- `DeviceType::is_rodent`
pub is_rodent : DeviceType → Bool
is_rodent standard_mouse = true
is_rodent mouse_with_scroll_wheel = true
is_rodent mouse5_button = true
is_rodent _ = false

-- the arms of `DeviceType::try_from` whose first byte is 0xab
keyboard_type : ℕ → Result DeviceType DeviceType
keyboard_type b =
    if b == 0x83
    then ok mf2_keyboard
    else if b == 0xc1
    then ok mf2_keyboard
    else if b == 0x84
    then ok short_keyboard
    else if b == 0x85
    then ok ncd97_or122_host_connect_keyboard
    else if b == 0x86
    then ok key122
    else if b == 0x90
    then ok japanese_g_keyboard
    else if b == 0x91
    then ok japanese_p_keyboard
    else if b == 0x92
    then ok japanese_a_keyboard
    else err unknown

-- `DeviceType::try_from`
pub device_try_from : ℕ → ℕ → Result DeviceType DeviceType
unfolding keyboard_type
device_try_from a b =
    if a == 0
    then ok standard_mouse
    else if a == 3
    then ok mouse_with_scroll_wheel
    else if a == 4
    then ok mouse5_button
    else if a == 0xab
    then keyboard_type b
    else if a == 0xac && b == 0xa1
    then ok ncd_sun_keyboard
    else err unknown
