-- ===== src/Drivers/Sdcard/Protocol.antt =====
-- Commands and answers of the SD card: the methods up to get_cardinfo of
-- kernel/src/drivers/block/sdcard.rs. The commands are numbers.
use hecto_os.Base.{
  ℕ, zero, suc, ◌%◌, true, false, not, List, [], ◌∷◌, ◌==◌, if◌then◌else◌, bit_and, bit_or, get_or,
}
use hecto_os.Base.Word.{shr}
use hecto_os.Drivers.Sdcard.{
  M, pure, ◌>>=◌, ◌>>◌, panic, Result, ok, err, set_pin, set_clk_rate, set_direction, send_data,
  recv_data,
}
use hecto_os.Drivers.Sdcard.Registers.{SdCardCsd, SdCardCid, SdCardInfo, csd_of, cid_of, info_of}

pub data Cmd : Type 0 where
  cmd0 cmd8 cmd9 cmd10 cmd12 cmd16 cmd17 cmd18 acmd23 cmd24 cmd25 acmd41 cmd55 cmd58 cmd59 : Cmd

abbrev pub cmd_byte : Cmd → ℕ
cmd_byte cmd0 = 0
cmd_byte cmd8 = 8
cmd_byte cmd9 = 9
cmd_byte cmd10 = 10
cmd_byte cmd12 = 12
cmd_byte cmd16 = 16
cmd_byte cmd17 = 17
cmd_byte cmd18 = 18
cmd_byte acmd23 = 23
cmd_byte cmd24 = 24
cmd_byte cmd25 = 25
cmd_byte acmd41 = 41
cmd_byte cmd55 = 55
cmd_byte cmd58 = 58
cmd_byte cmd59 = 59

abbrev pub sd_start_data_single_block_read : ℕ
sd_start_data_single_block_read = 0xFE

abbrev pub sd_start_data_single_block_write : ℕ
sd_start_data_single_block_write = 0xFE

abbrev pub sd_start_data_multiple_block_write : ℕ
sd_start_data_multiple_block_write = 0xFC

abbrev pub sec_len : ℕ
sec_len = 512

-- CS_HIGH, CS_LOW, HIGH_SPEED_ENABLE, lowlevel_init
abbrev pub cs_high : M (Unit {0})
cs_high = set_pin true

abbrev pub cs_low : M (Unit {0})
cs_low = set_pin false

abbrev pub high_speed_enable : M (Unit {0})
high_speed_enable = set_clk_rate 10000000

abbrev pub lowlevel_init : M (Unit {0})
lowlevel_init = do set_direction; set_clk_rate 200000

-- The six bytes of a command
abbrev pub command : Cmd → ℕ → ℕ → List ℕ
command cmd arg crc =
    bit_or (cmd_byte cmd) 0x40
    ∷ shr arg 24 % 256
    ∷ bit_and (shr arg 16) 0xff
    ∷ bit_and (shr arg 8) 0xff
    ∷ bit_and arg 0xff
    ∷ crc
    ∷ []

unfoldable pub send_cmd : Cmd → ℕ → ℕ → M (Unit {0})
send_cmd cmd arg crc = do cs_low; send_data (command cmd arg crc)

unfoldable pub end_cmd : M (Unit {0})
end_cmd = do cs_high; send_data (0xff ∷ [])

-- The loop of get_response, by the rounds left
unfoldable pub response_loop : ℕ → M ℕ
response_loop zero = pure 0xFF
response_loop (suc timeout) = do
  result ← recv_data 1
  let rest = response_loop timeout
  if not (get_or result 0 0 == 0xFF) then pure (get_or result 0 0) else rest

unfoldable pub get_response : M ℕ
get_response = response_loop 0x0FFF

-- The loop of get_dataresponse while the card is busy, by fuel
unfoldable pub busy_loop : ℕ → List ℕ → M ℕ
busy_loop zero response = panic
busy_loop (suc fuel) response =
    let rest = recv_data 1 >>= busy_loop fuel in if get_or response 0 0 == 0 then rest else pure 0

unfoldable pub get_dataresponse : ℕ → M ℕ
unfolding busy_loop
get_dataresponse fuel = do
  response ← recv_data 1
  if not (bit_and (get_or response 0 0) 0x1F == 0x05)
      then pure 0xFF
      else (recv_data 1 >>= busy_loop fuel)

-- The common part of get_csdregister and get_cidregister: the 18 bytes of a register
unfoldable pub read_register : Cmd → M (Result (List ℕ) (Unit {0}))
read_register cmd = do
  send_cmd cmd 0 0
  acknowledged ← get_response
  if not (acknowledged == 0x00) then (do end_cmd; pure (err tt)) else (do
    token ← get_response
    if not (token == sd_start_data_single_block_read)
        then (do end_cmd; pure (err tt))
        else (do tab ← recv_data 18; end_cmd; pure (ok tab)))

register_as : {A : Type 0} → (List ℕ → A) → Result (List ℕ) (Unit {0}) → Result A (Unit {0})
register_as decode (ok tab) = ok (decode tab)
register_as decode (err e) = err e

unfoldable pub get_csdregister : M (Result SdCardCsd (Unit {0}))
unfolding register_as
get_csdregister = do tab ← read_register cmd9; pure (register_as csd_of tab)

unfoldable pub get_cidregister : M (Result SdCardCid (Unit {0}))
unfolding register_as
get_cidregister = do tab ← read_register cmd10; pure (register_as cid_of tab)

info_with : SdCardCsd → Result SdCardCid (Unit {0}) → Result SdCardInfo (Unit {0})
info_with csd (ok cid) = ok (info_of csd cid)
info_with csd (err e) = err e

-- `?` on the CSD, and the CID after it
unfoldable pub then_cid : Result SdCardCsd (Unit {0}) → M (Result SdCardInfo (Unit {0}))
unfolding info_with
then_cid (err e) = pure (err e)
then_cid (ok csd) = do cid ← get_cidregister; pure (info_with csd cid)

unfoldable pub get_cardinfo : M (Result SdCardInfo (Unit {0}))
unfolding then_cid
get_cardinfo = do csd ← get_csdregister; then_cid csd
