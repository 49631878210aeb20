-- ===== src/Ps2/Device/Classes.antt =====
-- lib/hid-8042/src/lib.rs: keyboards and rodents.
use hootux.Ps2.Device.{DeviceType, unknown, is_keyboard, is_rodent, keyboard_type, device_try_from}
use hootux.Prelude.{ℕ, ◌≡◌, ◌⊎◌, Bool, true, false, ◌==◌, ◌||◌, if◌then◌else◌, ok, err, arith}

-- the first bytes of a mouse, and of a keyboard
pub mouse_id : ℕ → Bool
mouse_id a = a == 0 || a == 3 || a == 4

-- A device of two identity bytes is a mouse by its first byte alone; where the bytes are known, it is
-- a rodent exactly with the first byte of a mouse, and a keyboard exactly otherwise; bytes that are
-- not known give `Unknown`, which is neither.
pub device_try_from_lem :
    (a b : ℕ)
    → ((d : DeviceType) × (device_try_from a b ≡ ok d)
        × (is_rodent d ≡ mouse_id a)
        × (is_keyboard d ≡ (if mouse_id a then false else true)))
      ⊎ ((device_try_from a b ≡ err unknown)
          × (is_rodent unknown ≡ false)
          × (is_keyboard unknown ≡ false)
          × (mouse_id a ≡ false))
unfolding device_try_from keyboard_type is_rodent is_keyboard mouse_id
device_try_from_lem a b = ground arith
