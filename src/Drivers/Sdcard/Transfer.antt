-- ===== src/Drivers/Sdcard/Transfer.antt =====
-- Sectors go to and from a card that answers.
use hecto_os.Base.{
  ℕ, ◌+◌, ◌<◌, ◌≡◌, refl, ◌∙◌, true, false, not, some, List, [], ◌∷◌, ◌==◌, if◌then◌else◌, bit_and,
  length, arith,
}
use hecto_os.Drivers.Sdcard.{
  Event, sent, chip_select, Bus, M, pure, ◌>>=◌, >>=-some, panic, ok, send_data, bytes_at,
}
use hecto_os.Drivers.Sdcard.Protocol.{
  Cmd, cmd17, cmd18, cmd24, command, sec_len, send_cmd, end_cmd, get_response, get_dataresponse,
}
use hecto_os.Drivers.Sdcard.Sectors.{
  Sector, read_chunks, read_sector, stop_reading, write_chunks, write_sector, start_writing,
}
use hecto_os.Drivers.Sdcard.Total.{Ends, stop_reading-Ends}
use hecto_os.Drivers.Sdcard.Answers.{Answers, Ready, get_response-Answers, get_dataresponse-Ready}

-- Where a sector ends that begins after `gap` idle bytes and the token, with its two CRC bytes
abbrev pub sector_end : ℕ → ℕ → ℕ
sector_end position gap = position + gap + 1 + sec_len + 2

-- The card sends a sector for each gap, one after the other.
abbrev pub Serves : (ℕ → ℕ) → ℕ → List ℕ → Type 0
Serves incoming position [] = Unit
Serves incoming position (gap ∷ gaps) =
    (gap < 0x0FFF)
    × Answers incoming position gap 0xFE
    × Serves incoming (sector_end position gap) gaps

abbrev pub served : (ℕ → ℕ) → ℕ → List ℕ → List Sector
served incoming position [] = []
served incoming position (gap ∷ gaps) =
    bytes_at incoming (position + gap + 1) sec_len ∷ served incoming (sector_end position gap) gaps

abbrev served_end : ℕ → List ℕ → ℕ
served_end position [] = position
served_end position (gap ∷ gaps) = served_end (sector_end position gap) gaps

read_chunks-Serves :
    (gaps : List ℕ) (data_buf : List Sector) (s : Bus)
    → length data_buf ≡ length gaps
    → Serves s.incoming s.position gaps
    → read_chunks data_buf s
      ≡ some (
        (false, served s.incoming s.position gaps),
        record s { position = served_end s.position gaps },
      )
unfolding read_chunks ◌>>=◌
read_chunks-Serves [] [] s same serves = refl
read_chunks-Serves [] (chunk ∷ data_buf) s same serves = absurd (omega arith)
read_chunks-Serves (gap ∷ gaps) [] s same serves = absurd (omega arith)
read_chunks-Serves (gap ∷ gaps) (chunk ∷ data_buf) s same (near, answers, rest) =
    let ih =
      read_chunks-Serves gaps data_buf (record s { position = sector_end s.position gap })
        (omega arith) rest in
    >>=-some get_response _ (get_response-Answers gap 0xFE s near answers)
    ∙ >>=-some (read_chunks data_buf) _ ih

guard_lem :
    {A : Type 0} (data_buf : List Sector) (f : Unit {0} → M A) (s : Bus)
    → 0 < length data_buf
    → ((if length data_buf == 0 then panic else pure tt) >>= f) s ≡ f tt s
unfolding ◌>>=◌
guard_lem data_buf f s h =
    let filled : (length data_buf == 0) ≡ false = ground arith in rw filled refl

send_cmd_lem :
    (cmd : Cmd) (arg crc : ℕ) (s : Bus)
    → send_cmd cmd arg crc s
      ≡ some (tt, record s { log = sent (command cmd arg crc) ∷ chip_select false ∷ s.log })
unfolding send_cmd ◌>>=◌
send_cmd_lem cmd arg crc s = refl

end_cmd_lem :
    (s : Bus)
    → end_cmd s ≡ some (tt, record s { log = sent (0xff ∷ []) ∷ chip_select true ∷ s.log })
unfolding end_cmd ◌>>=◌
end_cmd_lem s = refl

-- A card that acknowledges the command and then sends a sector for each one asked for: the buffer
-- has what it sent, in order, and the result is a success.
pub read_sector-Serves :
    (gap : ℕ) (gaps : List ℕ) (data_buf : List Sector) (sector : ℕ) (s : Bus)
    → 0 < length data_buf
    → length data_buf ≡ length gaps
    → gap < 0x0FFF
    → Answers s.incoming s.position gap 0
    → Serves s.incoming (s.position + gap + 1) gaps
    → (s' : Bus) × (read_sector data_buf sector s
        ≡ some ((ok tt, served s.incoming (s.position + gap + 1) gaps), s'))
unfolding read_sector Ends
read_sector-Serves gap gaps data_buf sector s some_sector same near answers serves =
    let flag = not (length data_buf == 1) in
    let s1 : Bus = record s {
      log = sent (command (if flag then cmd18 else cmd17) sector 0) ∷ chip_select false ∷ s.log;
    } in
    let s2 : Bus = record s1 { position = s.position + gap + 1 } in
    let s3 : Bus = record s2 { position = served_end s2.position gaps } in
    let s4 : Bus = record s3 { log = sent (0xff ∷ []) ∷ chip_select true ∷ s3.log } in
    let (_, s5, stopped) = stop_reading-Ends flag s4 in
    (
      s5,
      guard_lem data_buf _ s some_sector
          ∙ >>=-some (send_cmd (if flag then cmd18 else cmd17) sector 0) _
              (send_cmd_lem _ sector 0 s)
          ∙ >>=-some get_response _ (get_response-Answers gap 0 s1 near answers)
          ∙ >>=-some (read_chunks data_buf) _ (read_chunks-Serves gaps data_buf s2 same serves)
          ∙ >>=-some end_cmd _ (end_cmd_lem s3)
          ∙ >>=-some (stop_reading flag) _ stopped,
    )

-- The card takes a block for each number of busy bytes, one after the other.
abbrev pub Takes : ℕ → (ℕ → ℕ) → ℕ → List ℕ → Type 0
Takes fuel incoming position [] = Unit
Takes fuel incoming position (busy ∷ rest) =
    (bit_and (incoming position) 0x1F ≡ 0x05)
    × (busy < fuel)
    × Ready incoming (position + 1) busy
    × Takes fuel incoming (position + 1 + busy + 1) rest

abbrev taken_end : ℕ → List ℕ → ℕ
taken_end position [] = position
taken_end position (busy ∷ rest) = taken_end (position + 1 + busy + 1) rest

-- What the driver has done when the blocks are written: for each its token, its bytes and two bytes
-- for a CRC, and at the end the end of the command twice
abbrev pub written : List ℕ → List Sector → List Event → List Event
written frame [] log =
    sent (0xff ∷ []) ∷ chip_select true ∷ sent (0xff ∷ []) ∷ chip_select true ∷ log
written frame (chunk ∷ rest) log =
    written frame rest (sent (0xff ∷ 0xff ∷ []) ∷ sent chunk ∷ sent frame ∷ log)

write_chunks-Takes :
    (fuel : ℕ) (frame : List ℕ) (busys : List ℕ) (data_buf : List Sector) (s : Bus)
    → length data_buf ≡ length busys
    → Takes fuel s.incoming s.position busys
    → write_chunks fuel frame data_buf s
      ≡ some (
        ok tt,
        record s { position = taken_end s.position busys; log = written frame data_buf s.log },
      )
unfolding write_chunks
write_chunks-Takes fuel frame [] [] s same takes = unfold end_cmd in unfold ◌>>=◌ in refl
write_chunks-Takes fuel frame [] (chunk ∷ data_buf) s same takes = absurd (omega arith)
write_chunks-Takes fuel frame (busy ∷ busys) [] s same takes = absurd (omega arith)
write_chunks-Takes fuel frame (busy ∷ busys) (chunk ∷ data_buf) s same
      (accepted, near, ready, rest) =
    let log = sent (0xff ∷ 0xff ∷ []) ∷ sent chunk ∷ sent frame ∷ s.log in
    let s1 : Bus = record s { log = log } in
    let s2 : Bus = record s1 { position = s.position + 1 + busy + 1 } in
    >>=-some (send_data frame) _ refl
    ∙ >>=-some (send_data chunk) _ refl
    ∙ >>=-some (send_data (0xff ∷ 0xff ∷ [])) _ refl
    ∙ >>=-some (get_dataresponse fuel) _ (get_dataresponse-Ready fuel busy s1 accepted near ready)
    ∙ write_chunks-Takes fuel frame busys data_buf s2 (omega arith) rest

-- A card that acknowledges CMD24 and takes the block: the driver has sent the command, the token
-- 0xFE, the bytes of the block and two bytes for a CRC, in that order, and the result is a success.
pub write_sector-Takes :
    (fuel gap busy : ℕ) (block : Sector) (sector : ℕ) (s : Bus)
    → gap < 0x0FFF
    → Answers s.incoming s.position gap 0
    → Takes fuel s.incoming (s.position + gap + 1) (busy ∷ [])
    → write_sector fuel (block ∷ []) sector s
      ≡ some (
        ok tt,
        record s {
          position = s.position + gap + 1 + 1 + busy + 1;
          log =
              written
                (0xff ∷ 0xFE ∷ [])
                (block ∷ [])
                (sent (command cmd24 sector 0) ∷ chip_select false ∷ s.log);
        },
      )
unfolding write_sector start_writing
write_sector-Takes fuel gap busy block sector s near answers takes =
    let s1 : Bus = record s { log = sent (command cmd24 sector 0) ∷ chip_select false ∷ s.log } in
    let s2 : Bus = record s1 { position = s.position + gap + 1 } in
    guard_lem (block ∷ []) _ s (omega arith)
    ∙ >>=-some (send_cmd cmd24 sector 0) _ (send_cmd_lem cmd24 sector 0 s)
    ∙ >>=-some get_response _ (get_response-Answers gap 0 s1 near answers)
    ∙ write_chunks-Takes fuel (0xff ∷ 0xFE ∷ []) (busy ∷ []) (block ∷ []) s2 refl takes
