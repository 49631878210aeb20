-- ===== src/Mp/Bitmap/Tests.antt =====
-- Sets of CPUs at concrete numbers.
use hootux.Mp.Bitmap.{new, set_bit, set_word, resize, word_at}
use hootux.Prelude.{◌≡◌, refl, bits_or, one_shl, [], ◌∷◌}

set_bit_test : set_bit (set_bit new 65) 2 ≡ 4 ∷ 2 ∷ []
unfolding set_bit set_word resize word_at new bits_or one_shl
set_bit_test = refl
