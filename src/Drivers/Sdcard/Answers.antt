-- ===== src/Drivers/Sdcard/Answers.antt =====
-- What a card that answers makes of the waiting loops.
use hecto_os.Base.{
  ℕ, zero, suc, ◌+◌, ◌<◌, ◌≡◌, ◌≢◌, refl, ap, ◌∙◌, true, false, some, ◌==◌, bit_and, arith,
}
use hecto_os.Drivers.Sdcard.{Bus, ◌>>=◌, recv_data, bytes_at}
use hecto_os.Drivers.Sdcard.Protocol.{response_loop, get_response, busy_loop, get_dataresponse}

-- From `position` on the line is idle for `gap` bytes, and then there is `value`.
pub record Answers (incoming : ℕ → ℕ) (position gap value : ℕ) : Type 0 where
  pub idle : (i : ℕ) → i < gap → incoming (position + i) ≡ 0xFF
  pub answer : incoming (position + gap) ≡ value
  pub visible : value ≢ 0xFF

later :
    {incoming : ℕ → ℕ} {position gap value : ℕ}
    → Answers incoming position (suc gap) value
    → Answers incoming (position + 1) gap value
later {incoming} {position} {gap} a = record {
  idle = λ i lt.
      let shift : position + 1 + i ≡ position + suc i = omega arith in
      rw shift (a.idle (suc i) (omega arith));
  answer = let shift : position + 1 + gap ≡ position + suc gap = omega arith in rw shift a.answer;
  visible = a.visible;
}

response_loop-Answers :
    (timeout gap value : ℕ) (s : Bus)
    → gap < timeout
    → Answers s.incoming s.position gap value
    → response_loop timeout s ≡ some (value, record s { position = s.position + gap + 1 })
unfolding response_loop ◌>>=◌ bytes_at
response_loop-Answers zero gap value s lt a = absurd (omega arith)
response_loop-Answers (suc timeout) zero value s lt a =
    let now : s.incoming s.position ≡ value = ap s.incoming (omega arith) ∙ a.answer in
    let stop : (s.incoming s.position == 0xFF) ≡ false = ground (arith, now, a.visible) in
    let there : s.position + 1 ≡ s.position + 0 + 1 = omega arith in rw (stop, there, now) refl
response_loop-Answers (suc timeout) (suc gap) value s lt a =
    let now : s.incoming s.position ≡ 0xFF = ap s.incoming (omega arith) ∙ a.idle 0 (omega arith) in
    let wait : (s.incoming s.position == 0xFF) ≡ true = ground (arith, now) in
    let there : s.position + suc gap + 1 ≡ s.position + 1 + gap + 1 = omega arith in
    let rest =
      response_loop-Answers timeout gap value (record s { position = s.position + 1 }) (omega arith)
        (later a) in
    rw (wait, there) rest

-- A card that answers after fewer than 4095 idle bytes is heard.
pub get_response-Answers :
    (gap value : ℕ) (s : Bus)
    → gap < 0x0FFF
    → Answers s.incoming s.position gap value
    → get_response s ≡ some (value, record s { position = s.position + gap + 1 })
unfolding get_response
get_response-Answers = response_loop-Answers 0x0FFF

-- The card is busy for `busy` bytes, and then it is not.
pub record Ready (incoming : ℕ → ℕ) (position busy : ℕ) : Type 0 where
  pub low : (i : ℕ) → i < busy → incoming (position + i) ≡ 0
  pub high : incoming (position + busy) ≢ 0

later_Ready :
    {incoming : ℕ → ℕ} {position busy : ℕ}
    → Ready incoming position (suc busy)
    → Ready incoming (position + 1) busy
later_Ready {incoming} {position} {busy} r = record {
  low = λ i lt.
      let shift : position + 1 + i ≡ position + suc i = omega arith in
      rw shift (r.low (suc i) (omega arith));
  high = let shift : position + 1 + busy ≡ position + suc busy = omega arith in rw shift r.high;
}

-- The loop with one read before it, as the code has it
busy_loop-Ready :
    (fuel busy : ℕ) (s : Bus)
    → busy < fuel
    → Ready s.incoming s.position busy
    → (recv_data 1 >>= busy_loop fuel) s ≡ some (0, record s { position = s.position + busy + 1 })
unfolding busy_loop ◌>>=◌ bytes_at
busy_loop-Ready zero busy s lt r = absurd (omega arith)
busy_loop-Ready (suc fuel) zero s lt r =
    let same : s.incoming s.position ≡ s.incoming (s.position + 0) = ap s.incoming (omega arith) in
    let now : (s.incoming s.position == 0) ≡ false = ground (arith, r.high, same) in
    let there : s.position + 1 ≡ s.position + 0 + 1 = omega arith in rw (now, there) refl
busy_loop-Ready (suc fuel) (suc busy) s lt r =
    let same : s.incoming s.position ≡ s.incoming (s.position + 0) = ap s.incoming (omega arith) in
    let now : (s.incoming s.position == 0) ≡ true = ground (arith, same ∙ r.low 0 (omega arith)) in
    let there : s.position + suc busy + 1 ≡ s.position + 1 + busy + 1 = omega arith in
    rw (now, there)
      (busy_loop-Ready fuel busy (record s { position = s.position + 1 }) (omega arith)
        (later_Ready r))

-- The card takes a block: the data response, then a wait while it is busy.
pub get_dataresponse-Ready :
    (fuel busy : ℕ) (s : Bus)
    → bit_and (s.incoming s.position) 0x1F ≡ 0x05
    → busy < fuel
    → Ready s.incoming (s.position + 1) busy
    → get_dataresponse fuel s ≡ some (0, record s { position = s.position + 1 + busy + 1 })
unfolding get_dataresponse ◌>>=◌ bytes_at
get_dataresponse-Ready fuel busy s taken lt r =
    let accepted : (bit_and (s.incoming s.position) 0x1F == 0x05) ≡ true = ground (arith, taken) in
    rw accepted (busy_loop-Ready fuel busy (record s { position = s.position + 1 }) lt r)
