-- ===== src/Drivers/Sdcard/Sectors.antt =====
-- read_sector and write_sector of kernel/src/drivers/block/sdcard.rs. A buffer is the list of its
-- sectors, so that its length is a multiple of SEC_LEN; that it is not empty is tested.
use hecto_os.Base.{
  ℕ, ◌%◌, ◌^◌, Bool, true, false, not, List, [], ◌∷◌, ltb, ◌==◌, if◌then◌else◌, length,
}
use hecto_os.Drivers.Sdcard.{M, pure, ◌>>=◌, ◌>>◌, panic, Result, ok, err, send_data, recv_data}
use hecto_os.Drivers.Sdcard.Protocol.{
  cmd12, cmd17, cmd18, acmd23, cmd24, cmd25, sd_start_data_single_block_read,
  sd_start_data_single_block_write, sd_start_data_multiple_block_write, sec_len, send_cmd, end_cmd,
  get_response, get_dataresponse,
}

abbrev pub Sector : Type 0
Sector = List ℕ

-- The loop over the chunks of the buffer: whether it was left with an error, and the buffer
unfoldable pub read_chunks : List Sector → M (Bool × List Sector)
read_chunks [] = pure (false, [])
read_chunks (chunk ∷ rest) = do
  token ← get_response
  let next = do
    tmp_chunk ← recv_data sec_len
    recv_data 2
    (error, rest') ← read_chunks rest
    pure (error, tmp_chunk ∷ rest')
  if not (token == sd_start_data_single_block_read) then pure (true, chunk ∷ rest) else next

-- The end of a read of many blocks
unfoldable pub stop_reading : Bool → M (Unit {0})
stop_reading false = pure tt
stop_reading true = do send_cmd cmd12 0 0; get_response; end_cmd; end_cmd

abbrev pub outcome : Bool → Result (Unit {0}) (Unit {0})
outcome error = if error then err tt else ok tt

-- SDCard::read_sector: the result and the buffer afterwards
unfoldable pub read_sector : List Sector → ℕ → M (Result (Unit {0}) (Unit {0}) × List Sector)
unfolding read_chunks stop_reading
read_sector data_buf sector = do
  if length data_buf == 0 then panic else pure tt
  let flag = not (length data_buf == 1)
  send_cmd (if flag then cmd18 else cmd17) sector 0
  acknowledged ← get_response
  if not (acknowledged == 0x00) then (do end_cmd; pure (err tt, data_buf)) else (do
    (error, data_buf') ← read_chunks data_buf
    end_cmd
    stop_reading flag
    pure (outcome error, data_buf'))

-- The loop over the chunks, whose body returns at the first that the card refuses
unfoldable pub write_chunks : ℕ → List ℕ → List Sector → M (Result (Unit {0}) (Unit {0}))
write_chunks fuel frame [] = do end_cmd; end_cmd; pure (ok tt)
write_chunks fuel frame (chunk ∷ rest) = do
  send_data frame
  send_data chunk
  send_data (0xff ∷ 0xff ∷ [])
  accepted ← get_dataresponse fuel
  let next = write_chunks fuel frame rest
  if not (accepted == 0x00) then (do end_cmd; pure (err tt)) else next

-- `(data_buf.len() / SEC_LEN).try_into().unwrap()`, a u32
unfoldable pub start_writing : List Sector → ℕ → M (Unit {0})
start_writing data_buf sector = if length data_buf == 1 then send_cmd cmd24 sector 0 else (do
  if ltb (length data_buf) (2 ^ 32) then pure tt else panic
  send_cmd acmd23 (length data_buf) 0
  get_response
  end_cmd
  send_cmd cmd25 sector 0)

abbrev pub write_token : List Sector → ℕ
write_token data_buf =
    if length data_buf == 1
    then sd_start_data_single_block_write
    else sd_start_data_multiple_block_write

-- SDCard::write_sector, with fuel for each wait while the card is busy
unfoldable pub write_sector : ℕ → List Sector → ℕ → M (Result (Unit {0}) (Unit {0}))
unfolding write_chunks start_writing
write_sector fuel data_buf sector = do
  if length data_buf == 0 then panic else pure tt
  start_writing data_buf sector
  acknowledged ← get_response
  if not (acknowledged == 0x00)
      then (do end_cmd; pure (err tt))
      else write_chunks fuel (0xff ∷ write_token data_buf ∷ []) data_buf

unwrap : {A : Type 0} → Result A (Unit {0}) → M A
unwrap (ok a) = pure a
unwrap (err e) = panic

the_sector : List Sector → M Sector
the_sector [] = panic
the_sector (sector ∷ _) = pure sector

-- SDCardWrapper: the device of one-sector blocks. `block_id as u32` keeps the low 32 bits.
unfoldable pub read_block : Sector → ℕ → M Sector
unfolding unwrap the_sector
read_block buf block_id = do
  read ← read_sector (buf ∷ []) (block_id % 2 ^ 32)
  unwrap read.0
  the_sector read.1

unfoldable pub write_block : ℕ → Sector → ℕ → M (Unit {0})
unfolding unwrap
write_block fuel buf block_id = do
  written ← write_sector fuel (buf ∷ []) (block_id % 2 ^ 32)
  unwrap written
