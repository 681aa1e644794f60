-- ===== src/Drivers/Sdcard/Total.antt =====
-- Whatever the card answers, a read and the initialisation come to an end.
use hecto_os.Base.{
  ℕ, zero, suc, ◌<◌, ◌≡◌, refl, ◌∙◌, Bool, true, false, some, replicate, List, [], ◌∷◌,
  if◌then◌else◌, length, ◌==◌, arith,
}
use hecto_os.Drivers.Sdcard.{
  Bus, M, pure, ◌>>=◌, >>=-some, panic, Result, ok, err, recv_data, send_data, set_pin,
  set_clk_rate,
}
use hecto_os.Drivers.Sdcard.Protocol.{
  Cmd, lowlevel_init, end_cmd, send_cmd, response_loop, get_response, read_register,
  get_csdregister, get_cidregister, get_cardinfo, then_cid,
}
use hecto_os.Drivers.Sdcard.Sectors.{Sector, read_chunks, read_sector, stop_reading}
use hecto_os.Drivers.Sdcard.Init.{
  InitError, init, check_voltage, started, read_info, read_ocr, start_loop, ocr_loop,
}
use hecto_os.Drivers.Sdcard.Registers.{SdCardCsd, SdCardInfo}

-- A program that has a result, from every state of the bus
unfoldable pub Ends : {A : Type 0} → M A → Type 0
Ends {A} m = (s : Bus) → (a : A) × (s' : Bus) × (m s ≡ some (a, s'))

Ends-pure : {A : Type 0} (a : A) → Ends (pure a)
unfolding Ends
Ends-pure a s = (a, s, refl)

Ends-then :
    {A B : Type 0} (m : M A) (f : A → M B) → Ends m → ((a : A) → Ends (f a)) → Ends (m >>= f)
unfolding Ends
Ends-then m f h k s =
    let (a, s', e) = h s in let (b, s'', e') = k a s' in (b, s'', >>=-some m f e ∙ e')

Ends-if : {A : Type 0} (b : Bool) (m k : M A) → Ends m → Ends k → Ends (if b then m else k)
Ends-if true m k hm hk = hm
Ends-if false m k hm hk = hk

recv_data-Ends : (n : ℕ) → Ends (recv_data n)
unfolding Ends
recv_data-Ends n s = (_, _, refl)

send_data-Ends : (bytes : List ℕ) → Ends (send_data bytes)
unfolding Ends
send_data-Ends bytes s = (_, _, refl)

set_clk_rate-Ends : (rate : ℕ) → Ends (set_clk_rate rate)
unfolding Ends
set_clk_rate-Ends rate s = (_, _, refl)

set_pin-Ends : (level : Bool) → Ends (set_pin level)
unfolding Ends
set_pin-Ends level s = (_, _, refl)

lowlevel_init-Ends : Ends lowlevel_init
unfolding Ends ◌>>=◌
lowlevel_init-Ends s = (_, _, refl)

send_cmd-Ends : (cmd : Cmd) (arg crc : ℕ) → Ends (send_cmd cmd arg crc)
unfolding Ends send_cmd ◌>>=◌
send_cmd-Ends cmd arg crc s = (_, _, refl)

end_cmd-Ends : Ends end_cmd
unfolding Ends end_cmd ◌>>=◌
end_cmd-Ends s = (_, _, refl)

response_loop-Ends : (timeout : ℕ) → Ends (response_loop timeout)
unfolding response_loop
response_loop-Ends zero = Ends-pure 0xFF
response_loop-Ends (suc timeout) =
    Ends-then _ _ (recv_data-Ends 1)
      λ result. Ends-if _ _ _ (Ends-pure _) (response_loop-Ends timeout)

get_response-Ends : Ends get_response
unfolding get_response
get_response-Ends = response_loop-Ends 0x0FFF

ruleset steps = (
  Ends-if, Ends-then, Ends-pure, recv_data-Ends, send_data-Ends, send_cmd-Ends, end_cmd-Ends,
  get_response-Ends,
)

read_chunks-Ends : (data_buf : List Sector) → Ends (read_chunks data_buf)
unfolding read_chunks
read_chunks-Ends [] = Ends-pure _
read_chunks-Ends (chunk ∷ rest) = let ih = read_chunks-Ends rest in search steps depth 14

pub stop_reading-Ends : (flag : Bool) → Ends (stop_reading flag)
unfolding stop_reading
stop_reading-Ends false = Ends-pure tt
stop_reading-Ends true = search steps depth 14

not_empty :
    (data_buf : List Sector)
    → 0 < length data_buf
    → Ends (if length data_buf == 0 then panic else pure tt)
not_empty data_buf h =
    let filled : (length data_buf == 0) ≡ false = ground arith in rw filled (Ends-pure tt)

read_sector-Ends :
    (data_buf : List Sector) (sector : ℕ) → 0 < length data_buf → Ends (read_sector data_buf sector)
unfolding read_sector
read_sector-Ends data_buf sector some_sector = Ends-then _ _ (not_empty data_buf some_sector) λ _.
    Ends-then _ _ (send_cmd-Ends _ _ _) λ _. Ends-then _ _ get_response-Ends λ acknowledged.
      Ends-if _ _ _ (Ends-then _ _ end_cmd-Ends λ _. Ends-pure _) (
        Ends-then _ _ (read_chunks-Ends _) λ chunks.
          Ends-then _ _ end_cmd-Ends λ _. Ends-then _ _ (stop_reading-Ends _) λ _. Ends-pure _)

read_register-Ends : (cmd : Cmd) → Ends (read_register cmd)
unfolding read_register
read_register-Ends cmd = search steps depth 20

get_csdregister-Ends : Ends get_csdregister
unfolding get_csdregister
get_csdregister-Ends = Ends-then _ _ (read_register-Ends _) λ tab. Ends-pure _

get_cidregister-Ends : Ends get_cidregister
unfolding get_cidregister
get_cidregister-Ends = Ends-then _ _ (read_register-Ends _) λ tab. Ends-pure _

then_cid-Ends : (csd : Result SdCardCsd (Unit {0})) → Ends (then_cid csd)
unfolding then_cid
then_cid-Ends (err e) = Ends-pure (err e)
then_cid-Ends (ok csd) = Ends-then _ _ get_cidregister-Ends λ cid. Ends-pure _

get_cardinfo-Ends : Ends get_cardinfo
unfolding get_cardinfo
get_cardinfo-Ends = Ends-then _ _ get_csdregister-Ends then_cid-Ends

start_loop-Ends : (index : ℕ) → Ends (start_loop index)
unfolding start_loop
start_loop-Ends zero = Ends-pure (ok zero)
start_loop-Ends (suc index) = let ih = start_loop-Ends index in search steps depth 20

ocr_loop-Ends : (index : ℕ) (frame : List ℕ) → Ends (ocr_loop index frame)
unfolding ocr_loop
ocr_loop-Ends zero frame = Ends-pure (zero, frame)
ocr_loop-Ends (suc index) frame = Ends-then _ _ (send_cmd-Ends _ _ _) λ _.
    Ends-then _ _ get_response-Ends λ result. Ends-then _ _ (recv_data-Ends 4) λ frame'.
      Ends-then _ _ end_cmd-Ends λ _. Ends-if _ _ _ (Ends-pure _) (ocr_loop-Ends index frame')

read_info-Ends : (result index : ℕ) (frame : List ℕ) → Ends (read_info result index frame)
unfolding read_info
read_info-Ends result index frame = search (steps, set_clk_rate-Ends, get_cardinfo-Ends) depth 20

started-Ends : (result : ℕ) (index : Result ℕ ℕ) → Ends (started result index)
unfolding started read_ocr
started-Ends result (err answer) = Ends-pure _
started-Ends result (ok index) =
    Ends-if _ _ _ (Ends-pure _) (
      Ends-then _ _ (ocr_loop-Ends 255 (replicate 4 0)) λ loop. read_info-Ends result loop.0 loop.1)

check_voltage-Ends : Ends check_voltage
unfolding check_voltage
check_voltage-Ends = Ends-then _ _ (send_cmd-Ends _ _ _) λ _.
    Ends-then _ _ get_response-Ends λ result. Ends-then _ _ (recv_data-Ends 4) λ _.
      Ends-then _ _ end_cmd-Ends λ _.
        Ends-if _ _ _ (Ends-pure _)
          (Ends-then _ _ (start_loop-Ends 255) λ index. started-Ends result index)

init-Ends : Ends init
unfolding init
init-Ends = Ends-then _ _ lowlevel_init-Ends λ _. Ends-then _ _ (set_pin-Ends true) λ _.
    Ends-then _ _ (send_data-Ends _) λ _.
      Ends-then _ _
        (Ends-then _ _ (send_cmd-Ends _ _ _) λ _.
          Ends-then _ _ get_response-Ends
            λ result. Ends-then _ _ end_cmd-Ends λ _. Ends-pure result)
        λ result. Ends-if _ _ _ (Ends-pure _) check_voltage-Ends

-- Whatever the card answers, also if it never does, the initialisation and a read of at least one
-- sector come to an end with a result, which may be an error.
pub read_sector_total :
    (data_buf : List Sector) (sector : ℕ) (s : Bus)
    → 0 < length data_buf
    → ((r : Result SdCardInfo InitError) × (s' : Bus) × (init s ≡ some (r, s')))
      × ((r : Result (Unit {0}) (Unit {0}) × List Sector) × (s' : Bus) × (read_sector data_buf
              sector s
            ≡ some (r, s')))
unfolding Ends
read_sector_total data_buf sector s some_sector =
    (init-Ends s, read_sector-Ends data_buf sector some_sector s)
