-- ===== src/Ps2/Keyboard/Answers.antt =====
-- lib/hid-8042/src/keyboard.rs: the bytes of a keyboard's answers, and the byte of a repeat rate.
use hootux.Ps2.Keyboard.{
  Response, resp_ack, resp_resend, resp_echo, bist_success, bist_failure, resp_error, response_byte,
  try_from, RepeatDelay, milis250, milis500, milis750, milis1000, delay_byte, repeat_new,
  repeat_fmt, delay_of,
}
use hootux.Prelude.{
  ℕ, ◌+◌, ◌*◌, ◌/◌, ◌%◌, ◌^◌, ◌<◌, ◌≤◌, ◌≡◌, refl, sym, ap, ◌∙◌, ◌↔◌, ◌⊎◌, true, false, Bool-cases,
  inl, inr, none, some, ◌==◌, if◌then◌else◌, ok, bits_and, bits_or_low, bits_and_high, bits_and_low,
  ltb, ltb→lt, le_of_not-ltb, >>=-eq-some, eq_of_some, arith, ◌>>=◌,
}

try_from_byte : (r : Response) → try_from (response_byte r) ≡ ok r
unfolding try_from response_byte
try_from_byte resp_ack = refl
try_from_byte resp_resend = refl
try_from_byte resp_echo = refl
try_from_byte bist_success = refl
try_from_byte bist_failure = refl
try_from_byte resp_error = refl

-- the second byte that stands for an answer, where it has one
pub alias_byte : Response → ℕ
alias_byte resp_error = 0
alias_byte bist_failure = 0xfd
alias_byte r = response_byte r

try_from-ok :
    (v : ℕ) (r : Response) → try_from v ≡ ok r → (v ≡ response_byte r) ⊎ (v ≡ alias_byte r)
unfolding try_from response_byte alias_byte
try_from-ok v resp_ack h = ground arith
try_from-ok v resp_resend h = ground arith
try_from-ok v resp_echo h = ground arith
try_from-ok v bist_success h = ground arith
try_from-ok v bist_failure h = ground arith
try_from-ok v resp_error h = ground arith

try_from_alias : (r : Response) → try_from (alias_byte r) ≡ ok r
unfolding try_from response_byte alias_byte
try_from_alias resp_ack = refl
try_from_alias resp_resend = refl
try_from_alias resp_echo = refl
try_from_alias bist_success = refl
try_from_alias bist_failure = refl
try_from_alias resp_error = refl

-- A byte reads as an answer exactly where it is that answer's own byte, or 0 for an error or 0xfd for
-- a failed self test.
pub try_from_lem :
    (v : ℕ) (r : Response) → (try_from v ≡ ok r) ↔ ((v ≡ response_byte r) ⊎ (v ≡ alias_byte r))
try_from_lem v r = (
  try_from-ok v r,
  λ h. elim h [
    | inl e ↦ ap try_from e ∙ try_from_byte r
    | inr e ↦ ap try_from e ∙ try_from_alias r
  ],
)

delay_small : (d : RepeatDelay) → delay_byte d < 4
unfolding delay_byte
delay_small milis250 = omega arith
delay_small milis500 = omega arith
delay_small milis750 = omega arith
delay_small milis1000 = omega arith

repeat_ok :
    (rate : ℕ) (delay : RepeatDelay)
    → rate < 32
    → repeat_new rate delay ≡ some (32 * delay_byte delay + rate)
unfolding repeat_new delay_byte
repeat_ok rate delay h =
    rw
      (bits_and_high rate (omega arith), mask, shifted, bits_or_low (delay_byte delay) rate bound h)
  where
    bound : delay_byte delay < 8
    bound = omega (arith, delay_small delay)

    mask : (rate / 32 * 32 == 0) ≡ true
    mask = ground arith

    shifted : delay_byte delay * 2 ^ 5 % 2 ^ 8 ≡ 32 * delay_byte delay
    shifted = omega (arith, delay_small delay)

repeat_bad :
    (rate : ℕ) (delay : RepeatDelay) → 32 ≤ rate → rate < 256 → repeat_new rate delay ≡ none
unfolding repeat_new
repeat_bad rate delay h k = rw (bits_and_high rate k, mask)
  where
    mask : (rate / 32 * 32 == 0) ≡ false
    mask = ground arith

-- For a rate of a byte, the byte of a `RepeatCtl` is its rate plus 32 times the number of its delay
-- where the rate is below 32, and `new` panics otherwise.
pub repeat_new_lem :
    (rate : ℕ) (delay : RepeatDelay)
    → rate < 256
    → repeat_new rate delay ≡ (if ltb rate 32 then some (32 * delay_byte delay + rate) else none)
repeat_new_lem rate delay h = elim (Bool-cases (ltb rate 32)) [
  | inl e ↦ repeat_ok rate delay (ltb→lt rate 32 e) ∙ rw (e)
  | inr e ↦ repeat_bad rate delay (le_of_not-ltb rate 32 e) h ∙ rw (e)
]

delay_index : (byte : ℕ) (d : RepeatDelay) → delay_of byte ≡ some d → byte ≡ delay_byte d
unfolding delay_of delay_byte
delay_index byte milis250 h = ground arith
delay_index byte milis500 h = ground arith
delay_index byte milis750 h = ground arith
delay_index byte milis1000 h = ground arith

fmt_delay :
    (byte shown : ℕ) (d : RepeatDelay)
    → repeat_fmt byte ≡ some (shown, d)
    → byte / 16 ≡ delay_byte d
unfolding repeat_fmt
fmt_delay byte shown d h =
    let got = >>=-eq-some (delay_of (byte / 16)) _ h in
    delay_index (byte / 16) got.0 got.1 ∙ ap (λ x. delay_byte x.1) (eq_of_some got.2)

delay_zero : (d : RepeatDelay) → delay_byte d ≡ 0 → d ≡ milis250
unfolding delay_byte
delay_zero milis250 h = refl
delay_zero milis500 h = absurd (omega arith)
delay_zero milis750 h = absurd (omega arith)
delay_zero milis1000 h = absurd (omega arith)

fmt_first : (rate : ℕ) → rate < 16 → repeat_fmt rate ≡ some (rate, milis250)
unfolding repeat_fmt delay_of
fmt_first rate h =
    ap (λ x. delay_of x >>= λ d. some (bits_and 8 rate 0x1f, d)) {y = 0} zeroth
    ∙ ap (λ x. some (x, milis250)) (bits_and_low rate (omega arith) ∙ omega arith)
  where
    zeroth : rate / 2 ^ 4 ≡ 0
    zeroth = omega arith

-- For a rate below 32, printing a `RepeatCtl` shows the rate and the delay that it was made of
-- only for the shortest delay and a rate below 16.
pub repeat_fmt_lem :
    (rate byte : ℕ) (delay : RepeatDelay)
    → rate < 32
    → repeat_new rate delay ≡ some byte
    → (repeat_fmt byte ≡ some (rate, delay)) ↔ ((delay ≡ milis250) × (rate < 16))
unfolding delay_byte
repeat_fmt_lem rate byte delay h e = (there, back)
  where
    value : byte ≡ 32 * delay_byte delay + rate
    value = eq_of_some (sym e ∙ repeat_ok rate delay h)

    there : repeat_fmt byte ≡ some (rate, delay) → (delay ≡ milis250) × (rate < 16)
    there k = (
      delay_zero delay (omega (arith, value, fmt_delay byte rate delay k)),
      omega (arith, value, fmt_delay byte rate delay k),
    )

    back : (delay ≡ milis250) × (rate < 16) → repeat_fmt byte ≡ some (rate, delay)
    back (d, k) =
        ap repeat_fmt (value ∙ ap (λ x. 32 * delay_byte x + rate) d ∙ omega arith)
        ∙ fmt_first rate k
        ∙ ap (λ x. some (rate, x)) (sym d)
