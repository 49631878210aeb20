-- ===== src/Ps2/Keyboard/Encode.antt =====
-- lib/hid-8042/src/keyboard.rs: what iterating over a command yields.
use hootux.Ps2.Keyboard.{
  Command, CommandIter, set_led, echo, scan_code_set, identify_device, repeat_ctl, enable_scan,
  disable_scan, set_default_params, set_typmatic, make_release, make_only,
  set_typmatic_make_release, set_key_typmatic, set_key_make_release, set_key_make_only, resend,
  reset_and_bist, command_byte, subcommand_byte, raw_iter, next, payload_byte, key_byte, first_only,
  Collected, collected, panicked, push_front, collect,
}
use hootux.Prelude.{
  ℕ, zero, suc, ◌+◌, ◌-◌, ◌<◌, ◌≤◌, ◌≡◌, refl, sym, ap, ◌∙◌, true, false, Bool-cases, inl, inr,
  Option, none, some, List, [], ◌∷◌, ◌==◌, if◌then◌else◌, length, get_elem?, drop, get_elem?-drop,
  sub64, add64, arith, ◌>>=◌,
}

-- the bytes of a key up to its first zero byte; without one the command cannot be iterated over.
pub until_zero : List ℕ → Collected
until_zero [] = panicked
until_zero (b ∷ r) = if b == 0 then collected [] else push_front b (until_zero r)

-- what follows the command byte
pub wire_payload : Command → Collected
wire_payload (set_led p) = collected (p ∷ [])
wire_payload (scan_code_set p) = collected (subcommand_byte p ∷ [])
wire_payload (repeat_ctl p) = collected (p ∷ [])
wire_payload (set_key_typmatic p) = until_zero p
wire_payload (set_key_make_release p) = until_zero p
wire_payload (set_key_make_only p) = until_zero p
wire_payload _ = collected []

-- the array of a command of one key
unfoldable pub key_bytes : Command → List ℕ
key_bytes (set_key_typmatic p) = p
key_bytes (set_key_make_release p) = p
key_bytes (set_key_make_only p) = p
key_bytes _ = []

at : Command → ℕ → CommandIter
at c i = record { index = i; command = c }

collect_panic : (f : ℕ) (it : CommandIter) → next it ≡ none → collect (suc f) it ≡ panicked
unfolding collect
collect_panic f it e = rw (collect, e)

collect_end :
    (f : ℕ) (it rest : CommandIter)
    → next it ≡ some (none, rest)
    → collect (suc f) it ≡ collected []
unfolding collect
collect_end f it rest e = rw (collect, e)

collect_item :
    (f : ℕ) (it rest : CommandIter) (b : ℕ)
    → next it ≡ some (some b, rest)
    → collect (suc f) it ≡ push_front b (collect f rest)
unfolding collect
collect_item f it rest b e = rw (collect, e)

next_payload :
    (c : Command) (i : ℕ) (o : Option (Option ℕ))
    → i < 100
    → payload_byte c (suc i) ≡ o
    → next (at c (suc i)) ≡ (o >>= λ item. some (item, at c (suc (suc i))))
unfolding next at
next_payload c i o h e =
    ap (λ t. t >>= λ item. some (item, at c (add64 (suc i) 1))) (first ∙ e)
    ∙ ap (λ j. o >>= λ item. some (item, at c j)) later
  where
    first :
        (if suc i == 0 then some (some (command_byte c)) else payload_byte c (suc i))
        ≡ payload_byte c (suc i)
    first = ground arith

    later : add64 (suc i) 1 ≡ suc (suc i)
    later = omega arith

drop_cons : (i : ℕ) (p r : List ℕ) (b : ℕ) → drop i p ≡ b ∷ r → drop (suc i) p ≡ r
drop_cons zero [] r b e = absurd (ground arith)
drop_cons zero (x ∷ p) r b e = cc
drop_cons (suc i) [] r b e = absurd (ground arith)
drop_cons (suc i) (x ∷ p) r b e = drop_cons i p r b e

key_head :
    (p q : List ℕ) (i : ℕ) → i < 100 → drop i p ≡ q → get_elem? p (sub64 (suc i) 1) ≡ get_elem? q 0
key_head p q i h d =
    ap (get_elem? p) {x = sub64 (suc i) 1} {y = i + 0} (omega arith)
    ∙ sym (get_elem?-drop i p 0)
    ∙ ap (λ l. get_elem? l 0) d

key_none : (p : List ℕ) (i : ℕ) → i < 100 → drop i p ≡ [] → key_byte p (suc i) ≡ none
unfolding key_byte
key_none p i h d = rw (key_head p [] i h d)

key_zero :
    (p : List ℕ) (i b : ℕ) (r : List ℕ)
    → i < 100
    → drop i p ≡ b ∷ r
    → (b == 0) ≡ true
    → key_byte p (suc i) ≡ some none
unfolding key_byte
key_zero p i b r h d e = rw (key_head p (b ∷ r) i h d, e)

key_some :
    (p : List ℕ) (i b : ℕ) (r : List ℕ)
    → i < 100
    → drop i p ≡ b ∷ r
    → (b == 0) ≡ false
    → key_byte p (suc i) ≡ some (some b)
unfolding key_byte
key_some p i b r h d e = rw (key_head p (b ∷ r) i h d, e)

-- the commands of one key, from a byte of the key on
collect-key :
    (c : Command) (p : List ℕ)
    → ((n : ℕ) → payload_byte c n ≡ key_byte p n)
    → (q : List ℕ) (i fuel : ℕ) → drop i p ≡ q
    → length q < fuel
    → i + length q < 100
    → collect fuel (at c (suc i)) ≡ until_zero q
unfolding until_zero key_byte
collect-key c p arm q i zero d lt hi = absurd (omega arith)
collect-key c p arm [] i (suc f) d lt hi =
    collect_panic f (at c (suc i))
      (next_payload c i none (omega arith) (arm (suc i) ∙ key_none p i (omega arith) d))
collect-key c p arm (b ∷ r) i (suc f) d lt hi = elim (Bool-cases (b == 0)) [
  | inl e ↦
      collect_end f (at c (suc i)) (at c (suc (suc i))) (
        next_payload c i (some none) (omega arith)
          (arm (suc i) ∙ key_zero p i b r (omega arith) d e))
      ∙ rw (e)
  | inr e ↦
      collect_item f (at c (suc i)) (at c (suc (suc i))) b (
        next_payload c i (some (some b)) (omega arith)
          (arm (suc i) ∙ key_some p i b r (omega arith) d e))
      ∙ ap (push_front b)
          (collect-key c p arm r (suc i) f (drop_cons i p r b d) (omega arith) (omega arith))
      ∙ rw (e)
]

next_first : (c : Command) → next (at c 0) ≡ some (some (command_byte c), at c 1)
unfolding next at
next_first c = refl

-- after the command byte
collect_rest :
    (c : Command) (f : ℕ) (rest : Collected)
    → collect f (at c 1) ≡ rest
    → collect (suc f) (raw_iter c) ≡ push_front (command_byte c) rest
unfolding raw_iter at
collect_rest c f rest e =
    collect_item f (at c 0) (at c 1) (command_byte c) (next_first c)
    ∙ ap (push_front (command_byte c)) e

collect_bare :
    (c : Command) (f : ℕ) → payload_byte c 1 ≡ some none → collect (suc f) (at c 1) ≡ collected []
collect_bare c f e = collect_end f (at c 1) (at c 2) (next_payload c 0 (some none) (omega arith) e)

collect_one :
    (c : Command) (f b : ℕ)
    → payload_byte c 1 ≡ some (some b)
    → payload_byte c 2 ≡ some none
    → collect (suc (suc f)) (at c 1) ≡ collected (b ∷ [])
unfolding push_front
collect_one c f b e1 e2 =
    collect_item (suc f) (at c 1) (at c 2) b (next_payload c 0 (some (some b)) (omega arith) e1)
    ∙ ap (push_front b)
        (collect_end f (at c 2) (at c 3) (next_payload c 1 (some none) (omega arith) e2))

collect-payload :
    (c : Command) (f : ℕ)
    → length (key_bytes c) ≤ 7
    → collect (suc (suc (6 + f))) (at c 1) ≡ wire_payload c
unfolding wire_payload key_bytes payload_byte first_only
collect-payload (set_led b) f h = collect_one (set_led b) (6 + f) b refl refl
collect-payload (scan_code_set p) f h =
    collect_one (scan_code_set p) (6 + f) (subcommand_byte p) refl refl
collect-payload (repeat_ctl b) f h = collect_one (repeat_ctl b) (6 + f) b refl refl
collect-payload (set_key_typmatic p) f h =
    collect-key (set_key_typmatic p) p (λ n. refl) p 0 (suc (suc (6 + f))) refl (omega arith)
      (omega arith)
collect-payload (set_key_make_release p) f h =
    collect-key (set_key_make_release p) p (λ n. refl) p 0 (suc (suc (6 + f))) refl (omega arith)
      (omega arith)
collect-payload (set_key_make_only p) f h =
    collect-key (set_key_make_only p) p (λ n. refl) p 0 (suc (suc (6 + f))) refl (omega arith)
      (omega arith)
collect-payload echo f h = collect_bare echo (suc (6 + f)) refl
collect-payload identify_device f h = collect_bare identify_device (suc (6 + f)) refl
collect-payload enable_scan f h = collect_bare enable_scan (suc (6 + f)) refl
collect-payload disable_scan f h = collect_bare disable_scan (suc (6 + f)) refl
collect-payload set_default_params f h = collect_bare set_default_params (suc (6 + f)) refl
collect-payload set_typmatic f h = collect_bare set_typmatic (suc (6 + f)) refl
collect-payload make_release f h = collect_bare make_release (suc (6 + f)) refl
collect-payload make_only f h = collect_bare make_only (suc (6 + f)) refl
collect-payload set_typmatic_make_release f h =
    collect_bare set_typmatic_make_release (suc (6 + f)) refl
collect-payload resend f h = collect_bare resend (suc (6 + f)) refl
collect-payload reset_and_bist f h = collect_bare reset_and_bist (suc (6 + f)) refl

-- For a command whose key array has at most 7 bytes and fuel of at least 9, collecting its iterator
-- ends: it yields the command byte, then the one payload byte of the commands that have one, or the
-- key up to its first zero byte; it panics where no byte of the key array is zero.
pub collect_lem :
    (c : Command) (fuel : ℕ)
    → length (key_bytes c) ≤ 7
    → 9 ≤ fuel
    → collect fuel (raw_iter c) ≡ push_front (command_byte c) (wire_payload c)
collect_lem c fuel h le =
    ap (λ n. collect n (raw_iter c)) {x = fuel} {y = suc (suc (suc (6 + (fuel - 9))))} (omega arith)
    ∙ collect_rest c (suc (suc (6 + (fuel - 9)))) (wire_payload c) (collect-payload c (fuel - 9) h)
