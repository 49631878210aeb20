-- ===== src/Ps2/Keyboard/Tests.antt =====
-- Commands, answers and repeat rates of a keyboard at concrete bytes.
use hootux.Ps2.Keyboard.{
  set_key_typmatic, raw_iter, next, payload_byte, collect, collected, panicked, push_front,
  milis250, milis1000, repeat_new, delay_byte, command_byte,
}
use hootux.Ps2.Keyboard.Encode.{collect_lem, wire_payload, key_bytes}
use hootux.Prelude.{ℕ, List, [], ◌∷◌, none, some, ◌≡◌, refl, bits_and, bits_or, arith}

-- `tests::not_full_scancode`
collect_key_test :
    collect 9 (raw_iter (set_key_typmatic (1 ∷ 2 ∷ 3 ∷ 0 ∷ 0 ∷ 0 ∷ 0 ∷ [])))
    ≡ collected (0xfb ∷ 1 ∷ 2 ∷ 3 ∷ [])
unfolding collect next payload_byte raw_iter command_byte push_front
collect_key_test = refl

-- `tests::raw_command_full_str_ok` expects eight bytes.
collect_full_test :
    collect 9 (raw_iter (set_key_typmatic (1 ∷ 2 ∷ 3 ∷ 4 ∷ 5 ∷ 6 ∷ 7 ∷ []))) ≡ panicked
unfolding collect next payload_byte raw_iter command_byte push_front
collect_full_test = refl

-- `tests::repeat_ctl_raw_ok`
repeat_new_test : repeat_new 31 milis1000 ≡ some 0x7f
unfolding repeat_new bits_and bits_or delay_byte
repeat_new_test = refl

-- `tests::bad_repeat_ctl`
repeat_new_bad_test : repeat_new 32 milis250 ≡ none
unfolding repeat_new bits_and
repeat_new_bad_test = refl

abbrev key_three : List ℕ
key_three = 1 ∷ 2 ∷ 3 ∷ 0 ∷ 0 ∷ 0 ∷ 0 ∷ []

collect_lem_example :
    collect 9 (raw_iter (set_key_typmatic key_three))
    ≡ push_front
        (command_byte (set_key_typmatic key_three))
        (wire_payload (set_key_typmatic key_three))
unfolding key_bytes
collect_lem_example = collect_lem (set_key_typmatic key_three) 9 (omega arith) (omega arith)
