-- ===== src/Drivers/Sdcard/Reports.antt =====
-- What the initialisation reports of a card that does not start.
use hecto_os.Base.{
  ℕ, ◌≡◌, refl, subst, Bool, true, false, not, some, some-eq, replicate, List, ◌==◌, if◌then◌else◌,
  ◌⊎◌, inl, inr, arith,
}
use hecto_os.Drivers.Sdcard.{Bus, M, pure, ◌>>=◌, >>=-eq-some, Result, ok, err}
use hecto_os.Drivers.Sdcard.Registers.{SdCardInfo}
use hecto_os.Drivers.Sdcard.Protocol.{
  Cmd, cmd0, cmd8, cmd9, cmd10, cmd12, cmd16, cmd17, cmd18, acmd23, cmd24, cmd25, acmd41, cmd55,
  cmd58, cmd59,
}
use hecto_os.Drivers.Sdcard.Init.{
  InitError, cmd_failed, card_capacity_status_not_set, cannot_get_card_info, info_or_error, init,
  check_voltage, started, read_info, read_ocr, start_loop, ocr_loop,
}

-- The answer that comes with a failure of ACMD41 or CMD58 is 1.
abbrev ReportsOne : Cmd → ℕ → Type 0
ReportsOne acmd41 answer = answer ≡ 1
ReportsOne cmd58 answer = answer ≡ 1
ReportsOne cmd0 answer = Unit
ReportsOne cmd8 answer = Unit
ReportsOne cmd9 answer = Unit
ReportsOne cmd10 answer = Unit
ReportsOne cmd12 answer = Unit
ReportsOne cmd16 answer = Unit
ReportsOne cmd17 answer = Unit
ReportsOne cmd18 answer = Unit
ReportsOne acmd23 answer = Unit
ReportsOne cmd24 answer = Unit
ReportsOne cmd25 answer = Unit
ReportsOne cmd55 answer = Unit
ReportsOne cmd59 answer = Unit

abbrev Reported : Result SdCardInfo InitError → Type 0
Reported (ok info) = Unit
Reported (err (cmd_failed cmd answer)) = ReportsOne cmd answer
Reported (err (card_capacity_status_not_set frame)) = Unit
Reported (err cannot_get_card_info) = Unit

Reports : M (Result SdCardInfo InitError) → Type 0
Reports m = (s : Bus) (a : Result SdCardInfo InitError) (s' : Bus) → m s ≡ some (a, s') → Reported a

Reports-pure : (a : Result SdCardInfo InitError) → Reported a → Reports (pure a)
unfolding Reports
Reports-pure a h s b s' e =
    subst (λ (r : Result SdCardInfo InitError × Bus). Reported r.0) (some-eq e) h

Reports-then :
    {A : Type 0} (m : M A) (f : A → M (Result SdCardInfo InitError))
    → ((a : A) → Reports (f a))
    → Reports (m >>= f)
unfolding Reports
Reports-then m f h s b s' e = let (a, s1, _, e') = >>=-eq-some m f e in h a s1 b s' e'

Reports-if :
    (b : Bool) (m k : M (Result SdCardInfo InitError))
    → (b ≡ true → Reports m)
    → (b ≡ false → Reports k)
    → Reports (if b then m else k)
Reports-if true m k hm hk = hm refl
Reports-if false m k hm hk = hk refl

info_or_error-Reported : (info : Result SdCardInfo (Unit {0})) → Reported (info_or_error info)
unfolding info_or_error
info_or_error-Reported (ok info) = tt
info_or_error-Reported (err e) = tt

read_info-Reports : (index : ℕ) (frame : List ℕ) → Reports (read_info 1 index frame)
unfolding read_info
read_info-Reports index frame =
    search (Reports-if, Reports-then, Reports-pure, info_or_error-Reported) depth 14

started-Reports : (index : Result ℕ ℕ) → Reports (started 1 index)
unfolding started read_ocr
started-Reports (err answer) = Reports-pure _ tt
started-Reports (ok index) =
    Reports-if (index == 0) (pure (err (cmd_failed acmd41 1))) _ (λ e. Reports-pure _ refl)
      (λ e. Reports-then (ocr_loop 255 (replicate 4 0)) _ λ loop. read_info-Reports loop.0 loop.1)

check_voltage-Reports : Reports check_voltage
unfolding check_voltage
check_voltage-Reports = Reports-then _ _ λ _. Reports-then _ _ λ result. Reports-then _ _ λ _.
    Reports-then _ _ λ _.
      Reports-if (not (result == 1)) (pure (err (cmd_failed cmd8 result))) _
        (λ e. Reports-pure _ tt)
        (λ e.
          Reports-then (start_loop 255) _
            λ index. let one : result ≡ 1 = ground (arith, e) in rw one (started-Reports index))

init-Reports : Reports init
unfolding init
init-Reports = Reports-then _ _ λ _. Reports-then _ _ λ _. Reports-then _ _ λ _.
    Reports-then _ _ λ result.
      Reports-if (not (result == 1)) (pure (err (cmd_failed cmd0 result))) _
        (λ e. Reports-pure _ tt) (λ e. check_voltage-Reports)

-- An initialisation that fails on ACMD41 or on CMD58 reports the answer 1, whatever the card answered
-- to these: it is the answer to CMD8.
pub init-reports_one :
    (s : Bus) (cmd : Cmd) (answer : ℕ) (s' : Bus)
    → init s ≡ some (err (cmd_failed cmd answer), s')
    → (cmd ≡ acmd41) ⊎ (cmd ≡ cmd58)
    → answer ≡ 1
unfolding Reports
init-reports_one s cmd answer s' e which =
    let reported = init-Reports s _ s' e in
    elim which [ inl a ↦ rw a at reported | inr b ↦ rw b at reported ]
