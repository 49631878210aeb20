-- ===== src/Ps2/Controller/Tests.antt =====
-- Commands of the controller at concrete bytes.
use hootux.Ps2.Controller.{
  address_new, write_byte, raw, send_raw, send_command, read_data, send_data,
}
use hootux.Prelude.{◌≡◌, refl, none, some, [], ◌∷◌, ok, bits_and}

-- an address past the documented range is accepted, and sent as a byte that is no write command
address_new_test : address_new 32 ≡ some (record { offset = 32 })
unfolding address_new
address_new_test = refl

send_write_test :
    send_command (write_byte (record { offset = 32 }) 5) ≡ (0x64, 0x80) ∷ (0x60, 5) ∷ []
unfolding send_command send_raw raw
send_write_test = refl

read_data_test : read_data 0x1c 7 ≡ none
unfolding read_data bits_and
read_data_test = refl

send_data_test : send_data 1 7 ≡ (ok tt, (0x60, 7) ∷ [])
unfolding send_data bits_and
send_data_test = refl
