-- ===== src/Drivers/Sdcard/Tests.antt =====
-- Cards that answer, as the bytes that they put on the line.
use hecto_os.Base.{
  ℕ, ◌+◌, ◌%◌, ◌≡◌, refl, inl, true, false, Option, none, some, List, [], ◌∷◌, ◌==◌, ltb,
  if◌then◌else◌, arith,
}
use hecto_os.Drivers.Sdcard.{Event, sent, chip_select, Bus, M, Result, ok, err, ◌>>=◌, bytes_at}
use hecto_os.Drivers.Sdcard.Registers.{csd_of, SdCardInfo}
use hecto_os.Drivers.Sdcard.Protocol.{acmd41, cmd24, command, cmd58}
use hecto_os.Drivers.Sdcard.Sectors.{Sector, read_sector, write_sector}
use hecto_os.Drivers.Sdcard.Init.{InitError, cmd_failed, init, card_run, initialise, read_sectors}
use hecto_os.Drivers.Sdcard.Answers.{Answers, Ready}
use hecto_os.Drivers.Sdcard.Transfer.{served, written, read_sector-Serves, write_sector-Takes}
use hecto_os.Drivers.Sdcard.Select.{deselected, card_run-deselected}
use hecto_os.Drivers.Sdcard.Total.{read_sector_total}
use hecto_os.Drivers.Sdcard.Fields.{IsCsd, csd_of-IsCsd}
use hecto_os.Drivers.Sdcard.Reports.{init-reports_one}

abbrev fresh_bus : (ℕ → ℕ) → Bus
fresh_bus incoming = record { incoming = incoming; position = 0; log = [] }

-- An acknowledgement, an idle byte, the token, and then the bytes of a sector
abbrev serving : ℕ → ℕ
serving n = if n == 0 then 0 else (if n == 1 then 0xFF else (if n == 2 then 0xFE else n % 251))

at_once :
    {incoming : ℕ → ℕ} (position value : ℕ)
    → incoming (position + 0) ≡ value
    → (value ≡ 0xFF → ⊥)
    → Answers incoming position 0 value
at_once position value e v = record { idle = λ i lt. absurd (omega arith); answer = e; visible = v }

read_sector-Serves_example :
    (s' : Bus) × (read_sector ([] ∷ []) 9 (fresh_bus serving)
      ≡ some ((ok tt, served serving 1 (1 ∷ [])), s'))
read_sector-Serves_example =
    read_sector-Serves 0 (1 ∷ []) ([] ∷ []) 9 (fresh_bus serving) (omega arith) refl (omega arith)
      (at_once 0 0 refl (λ e. omega arith))
      (
        omega arith,
        record {
          idle = λ i lt. let z : i ≡ 0 = omega arith in rw z refl;
          answer = refl;
          visible = λ e. omega arith;
        },
        tt,
      )

-- An acknowledgement, a data response, two busy bytes, and then the line is free.
abbrev taking : ℕ → ℕ
taking n = if n == 0 then 0 else (if n == 1 then 0xE5 else (if ltb n 4 then 0 else 0xFF))

busy_for : Ready taking 2 2
busy_for = record {
  low = λ i lt. let small : ltb (2 + i) 4 ≡ true = ground arith in ground arith;
  high = λ e. omega arith;
}

write_sector-Takes_example :
    write_sector 9 ((1 ∷ 2 ∷ []) ∷ []) 0x1234 (fresh_bus taking)
    ≡ some (
      ok tt,
      record {
        incoming = taking;
        position = 5;
        log =
            written
              (0xff ∷ 0xFE ∷ [])
              ((1 ∷ 2 ∷ []) ∷ [])
              (sent (command cmd24 0x1234 0) ∷ chip_select false ∷ []);
      },
    )
write_sector-Takes_example =
    write_sector-Takes 9 0 2 (1 ∷ 2 ∷ []) 0x1234 (fresh_bus taking) (omega arith)
      (at_once 0 0 refl (λ e. omega arith)) (refl, omega arith, busy_for, tt)

command_bytes : command cmd24 0x12345678 0 ≡ 0x58 ∷ 0x12 ∷ 0x34 ∷ 0x56 ∷ 0x78 ∷ 0 ∷ []
command_bytes = refl

-- A card that answers 1 to CMD55 and 5 to ACMD41, which it never starts
abbrev stuck : ℕ → ℕ
stuck n = if ltb n 6 then 1 else (if n % 2 == 0 then 1 else 5)

abbrev or_fresh : {A : Type 0} → A → (ℕ → ℕ) → Option (A × Bus) → A × Bus
or_fresh a incoming none = (a, fresh_bus incoming)
or_fresh a incoming (some r) = r

unfoldable stuck_end : Result SdCardInfo InitError × Bus
stuck_end = or_fresh (err (cmd_failed cmd58 0)) stuck (init (fresh_bus stuck))

stuck_result : init (fresh_bus stuck) ≡ some (err (cmd_failed acmd41 1), stuck_end.1)
unfolding stuck_end init ◌>>=◌ bytes_at hecto_os.Drivers.Sdcard.Protocol.send_cmd
    hecto_os.Drivers.Sdcard.Protocol.get_response hecto_os.Drivers.Sdcard.Protocol.response_loop
    hecto_os.Drivers.Sdcard.Protocol.end_cmd
stuck_result = refl

init-reports_one_example : ◌≡◌ {A = ℕ} 1 1
init-reports_one_example =
    init-reports_one (fresh_bus stuck) acmd41 1 stuck_end.1 stuck_result (inl refl)

-- A read of which the card refuses the data, and an initialisation that it does not answer
abbrev silent : ℕ → ℕ
silent n = 0xFE

unfoldable silent_end : Unit {0} × Bus
silent_end =
    or_fresh tt silent (card_run (read_sectors ([] ∷ []) 4 ∷ initialise ∷ []) (fresh_bus silent))

silent_run :
    card_run (read_sectors ([] ∷ []) 4 ∷ initialise ∷ []) (fresh_bus silent)
    ≡ some (tt, silent_end.1)
unfolding silent_end card_run read_sector ◌>>=◌ bytes_at hecto_os.Drivers.Sdcard.Protocol.send_cmd
    hecto_os.Drivers.Sdcard.Protocol.get_response hecto_os.Drivers.Sdcard.Protocol.response_loop
    hecto_os.Drivers.Sdcard.Protocol.end_cmd
silent_run = refl

card_run-deselected_example : deselected silent_end.1.log ≡ true
card_run-deselected_example =
    card_run-deselected (read_sectors ([] ∷ []) 4 ∷ initialise ∷ []) (fresh_bus silent) silent_end.1
      refl silent_run

read_sector_total_example :
    ((r : Result SdCardInfo InitError) × (s' : Bus) × (init (fresh_bus silent) ≡ some (r, s')))
    × ((r : Result (Unit {0}) (Unit {0}) × List Sector) × (s' : Bus) × (read_sector
            ([] ∷ [])
            4
            (fresh_bus silent)
          ≡ some (r, s')))
read_sector_total_example = read_sector_total ([] ∷ []) 4 (fresh_bus silent) (omega arith)

csd_of-IsCsd_example :
    IsCsd
      (csd_of (
        0x40 ∷ 0x0E ∷ 0 ∷ 0x32 ∷ 0x5B ∷ 0x59 ∷ 0 ∷ 0 ∷ 0x3B ∷ 0x37 ∷ 0x7F ∷ 0x80 ∷ 0x0A ∷ 0x40 ∷ 0
        ∷ 0x23 ∷ 0xAB ∷ 0xCD ∷ []))
      (0x40 ∷ 0x0E ∷ 0 ∷ 0x32 ∷ 0x5B ∷ 0x59 ∷ 0 ∷ 0 ∷ 0x3B ∷ 0x37 ∷ 0x7F ∷ 0x80 ∷ 0x0A ∷ 0x40 ∷ 0
        ∷ 0x23 ∷ [])
csd_of-IsCsd_example =
    csd_of-IsCsd 0x40 0x0E 0 0x32 0x5B 0x59 0 0 0x3B 0x37 0x7F 0x80 0x0A 0x40 0 0x23 0xAB 0xCD
      (omega arith)
