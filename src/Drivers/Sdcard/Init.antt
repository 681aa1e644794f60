-- ===== src/Drivers/Sdcard/Init.antt =====
-- SDCard::init of kernel/src/drivers/block/sdcard.rs.
use hecto_os.Base.{
  ℕ, zero, suc, not, List, [], ◌∷◌, ◌==◌, if◌then◌else◌, replicate, bit_and, get_or,
}
use hecto_os.Drivers.Sdcard.{M, pure, ◌>>=◌, ◌>>◌, Result, ok, err, send_data, recv_data}
use hecto_os.Drivers.Sdcard.Registers.{SdCardInfo}
use hecto_os.Drivers.Sdcard.Sectors.{read_sector, write_sector}
use hecto_os.Drivers.Sdcard.Protocol.{
  Cmd, cmd0, cmd8, acmd41, cmd55, cmd58, cs_high, high_speed_enable, lowlevel_init, send_cmd,
  end_cmd, get_response, get_cardinfo,
}

pub data InitError : Type 0 where
  cmd_failed : Cmd → ℕ → InitError
  card_capacity_status_not_set : List ℕ → InitError
  cannot_get_card_info : InitError

-- A command, its answer, and the end of it
abbrev pub exchange : Cmd → ℕ → ℕ → M ℕ
exchange cmd arg crc = do send_cmd cmd arg crc; result ← get_response; end_cmd; pure result

-- The loop on CMD55 and ACMD41, by `index`: what is left of it, or the answer to a CMD55 that failed
unfoldable pub start_loop : ℕ → M (Result ℕ ℕ)
start_loop zero = pure (ok zero)
start_loop (suc index) = do
  result ← exchange cmd55 0 0
  let turn = do
    started ← exchange acmd41 0x40000000 0
    let rest = start_loop index
    if started == 0x00 then pure (ok (suc index)) else rest
  if not (result == 0x01) then pure (err result) else turn

-- The loop on CMD58, by `index`: what is left of it, and the last frame
unfoldable pub ocr_loop : ℕ → List ℕ → M (ℕ × List ℕ)
ocr_loop zero frame = pure (zero, frame)
ocr_loop (suc index) frame = do
  send_cmd cmd58 0 1
  result ← get_response
  frame' ← recv_data 4
  end_cmd
  let rest = ocr_loop index frame'
  if result == 0 then pure (suc index, frame') else rest

unfoldable pub info_or_error : Result SdCardInfo (Unit {0}) → Result SdCardInfo InitError
info_or_error (ok info) = ok info
info_or_error (err e) = err cannot_get_card_info

-- After the second loop; `result` is still the answer to CMD8, since the loops have their own.
unfoldable pub read_info : ℕ → ℕ → List ℕ → M (Result SdCardInfo InitError)
unfolding info_or_error
read_info result index frame =
    if index == 0
    then pure (err (cmd_failed cmd58 result))
    else (if bit_and (get_or frame 0 0) 0x40 == 0
        then pure (err (card_capacity_status_not_set frame))
        else (do high_speed_enable; info ← get_cardinfo; pure (info_or_error info)))

unfoldable pub read_ocr : ℕ → M (Result SdCardInfo InitError)
unfolding ocr_loop read_info
read_ocr result = do loop ← ocr_loop 255 (replicate 4 0); read_info result loop.0 loop.1

unfoldable pub started : ℕ → Result ℕ ℕ → M (Result SdCardInfo InitError)
unfolding read_ocr
started result (err answer) = pure (err (cmd_failed cmd55 answer))
started result (ok index) =
    if index == 0 then pure (err (cmd_failed acmd41 result)) else read_ocr result

unfoldable pub check_voltage : M (Result SdCardInfo InitError)
unfolding start_loop started
check_voltage = do
  send_cmd cmd8 0x01AA 0x87
  result ← get_response
  recv_data 4
  end_cmd
  if not (result == 0x01)
      then pure (err (cmd_failed cmd8 result))
      else (do index ← start_loop 255; started result index)

unfoldable pub init : M (Result SdCardInfo InitError)
unfolding check_voltage
init = do
  lowlevel_init
  cs_high
  send_data (replicate 10 0xff)
  result ← exchange cmd0 0 0x95
  if not (result == 0x01) then pure (err (cmd_failed cmd0 result)) else check_voltage

-- What is done with a card: its initialisation, and the reads and writes of SDCardWrapper's device
pub data CardOp : Type 0 where
  initialise : CardOp
  read_sectors : List (List ℕ) → ℕ → CardOp
  write_sectors : ℕ → List (List ℕ) → ℕ → CardOp

unfoldable pub card_step : CardOp → M (Unit {0})
unfolding init
card_step initialise = do init; pure tt
card_step (read_sectors data_buf sector) = do read_sector data_buf sector; pure tt
card_step (write_sectors fuel data_buf sector) = do write_sector fuel data_buf sector; pure tt

unfoldable pub card_run : List CardOp → M (Unit {0})
unfolding card_step
card_run [] = pure tt
card_run (op ∷ ops) = do card_step op; card_run ops
