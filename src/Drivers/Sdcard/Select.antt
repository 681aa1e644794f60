-- ===== src/Drivers/Sdcard/Select.antt =====
-- The chip select line: every operation of the driver leaves the card deselected, also on an error.
use hecto_os.Base.{
  ℕ, zero, suc, ◌≡◌, refl, subst, Bool, true, false, some, some-eq, replicate, List, [], ◌∷◌,
  if◌then◌else◌,
}
use hecto_os.Drivers.Sdcard.{
  Event, chip_select, clk_rate, output_direction, sent, Bus, M, pure, ◌>>=◌, ◌>>◌, >>=-eq-some,
  Result, ok, err,
}
use hecto_os.Drivers.Sdcard.Registers.{SdCardCsd}
use hecto_os.Drivers.Sdcard.Protocol.{
  Cmd, end_cmd, read_register, get_csdregister, get_cidregister, get_cardinfo, then_cid,
}
use hecto_os.Drivers.Sdcard.Sectors.{Sector, read_sector, write_sector, write_chunks, stop_reading}
use hecto_os.Drivers.Sdcard.Init.{
  CardOp, initialise, read_sectors, write_sectors, card_step, card_run, init, exchange,
  check_voltage, started, read_info, read_ocr, start_loop, ocr_loop,
}

-- Whether the last level of the chip select line is high, which deselects the card
abbrev pub deselected : List Event → Bool
deselected [] = true
deselected (chip_select level ∷ log) = level
deselected (clk_rate rate ∷ log) = deselected log
deselected (output_direction ∷ log) = deselected log
deselected (sent bytes ∷ log) = deselected log

-- A program that ends with the card deselected
pub Deselects : {A : Type 0} → M A → Type 0
Deselects {A} m = (s : Bus) (a : A) (s' : Bus) → m s ≡ some (a, s') → deselected s'.log ≡ true

-- A program that leaves it so
Keeps : {A : Type 0} → M A → Type 0
Keeps {A} m =
    (s : Bus) (a : A) (s' : Bus)
    → deselected s.log ≡ true
    → m s ≡ some (a, s')
    → deselected s'.log ≡ true

Keeps-pure : {A : Type 0} (x : A) → Keeps (pure x)
unfolding Keeps
Keeps-pure x s a s' high e = subst (λ (r : _ × Bus). deselected r.1.log ≡ true) (some-eq e) high

Deselects-Keeps : {A : Type 0} (m : M A) → Deselects m → Keeps m
unfolding Keeps Deselects
Deselects-Keeps m h s a s' _ e = h s a s' e

-- What comes last decides.
Deselects-last :
    {A B : Type 0} (m : M A) (f : A → M B) → ((a : A) → Deselects (f a)) → Deselects (m >>= f)
unfolding Deselects
Deselects-last m f h s b s' e = let (a, s1, _, e') = >>=-eq-some m f e in h a s1 b s' e'

Deselects-first :
    {A B : Type 0} (m : M A) (f : A → M B)
    → Deselects m
    → ((a : A) → Keeps (f a))
    → Deselects (m >>= f)
unfolding Deselects Keeps
Deselects-first m f h k s b s' e =
    let (a, s1, e1, e') = >>=-eq-some m f e in k a s1 b s' (h s a s1 e1) e'

Keeps-then :
    {A B : Type 0} (m : M A) (f : A → M B) → Keeps m → ((a : A) → Keeps (f a)) → Keeps (m >>= f)
unfolding Keeps
Keeps-then m f h k s b s' high e =
    let (a, s1, e1, e') = >>=-eq-some m f e in k a s1 b s' (h s a s1 high e1) e'

Deselects-if :
    {A : Type 0} (b : Bool) (m k : M A) → Deselects m → Deselects k → Deselects (if b then m else k)
Deselects-if true m k hm hk = hm
Deselects-if false m k hm hk = hk

Keeps-if : {A : Type 0} (b : Bool) (m k : M A) → Keeps m → Keeps k → Keeps (if b then m else k)
Keeps-if true m k hm hk = hm
Keeps-if false m k hm hk = hk

end_cmd-Deselects : Deselects end_cmd
unfolding end_cmd Deselects ◌>>=◌
end_cmd-Deselects s a s' e = subst (λ (r : _ × Bus). deselected r.1.log ≡ true) (some-eq e) refl

-- The end of a command, and a value
ended : {A : Type 0} (x : A) → Deselects (end_cmd >> pure x)
ended x = Deselects-first end_cmd (λ _. pure x) end_cmd-Deselects (λ _. Keeps-pure x)

ruleset ending = (Deselects-if, Deselects-last, ended, end_cmd-Deselects)

read_register-Deselects : (cmd : Cmd) → Deselects (read_register cmd)
unfolding read_register
read_register-Deselects cmd = search ending depth 14

get_csdregister-Deselects : Deselects get_csdregister
unfolding get_csdregister
get_csdregister-Deselects = Deselects-first _ _ (read_register-Deselects _) (λ tab. Keeps-pure _)

get_cidregister-Deselects : Deselects get_cidregister
unfolding get_cidregister
get_cidregister-Deselects = Deselects-first _ _ (read_register-Deselects _) (λ tab. Keeps-pure _)

then_cid-Keeps : (csd : Result SdCardCsd (Unit {0})) → Keeps (then_cid csd)
unfolding then_cid
then_cid-Keeps (err e) = Keeps-pure (err e)
then_cid-Keeps (ok csd) =
    Deselects-Keeps _ (Deselects-first _ _ get_cidregister-Deselects (λ cid. Keeps-pure _))

get_cardinfo-Deselects : Deselects get_cardinfo
unfolding get_cardinfo
get_cardinfo-Deselects = Deselects-first _ _ get_csdregister-Deselects then_cid-Keeps

stop_reading-Keeps : (flag : Bool) → Keeps (stop_reading flag)
unfolding stop_reading
stop_reading-Keeps false = Keeps-pure tt
stop_reading-Keeps true = Deselects-Keeps _ (search ending depth 14)

-- Whatever the card answers, read_sector leaves it deselected, with an error too.
pub read_sector-Deselects :
    (data_buf : List Sector) (sector : ℕ) → Deselects (read_sector data_buf sector)
unfolding read_sector
read_sector-Deselects data_buf sector = Deselects-last _ _ λ _. Deselects-last _ _ λ _.
    Deselects-last _ _ λ acknowledged. Deselects-if _ _ _ (ended _) (
      Deselects-last _ _ λ chunks.
        Deselects-first _ _ end_cmd-Deselects
          λ _. Keeps-then _ _ (stop_reading-Keeps _) λ _. Keeps-pure _)

write_chunks-Deselects :
    (fuel : ℕ) (frame : List ℕ) (data_buf : List Sector)
    → Deselects (write_chunks fuel frame data_buf)
unfolding write_chunks
write_chunks-Deselects fuel frame [] = search ending depth 14
write_chunks-Deselects fuel frame (chunk ∷ rest) =
    let ih = write_chunks-Deselects fuel frame rest in search ending depth 14

-- So does write_sector, where the card is not busy for ever.
pub write_sector-Deselects :
    (fuel : ℕ) (data_buf : List Sector) (sector : ℕ) → Deselects (write_sector fuel data_buf sector)
unfolding write_sector
write_sector-Deselects fuel data_buf sector =
    search (Deselects-if, Deselects-last, ended, write_chunks-Deselects) depth 14

-- The exchanges of the initialisation
exchange-Deselects : (cmd : Cmd) (arg crc : ℕ) → Deselects (exchange cmd arg crc)
exchange-Deselects cmd arg crc = search ending depth 14

start_loop-Keeps : (index : ℕ) → Keeps (start_loop index)
unfolding start_loop
start_loop-Keeps zero = Keeps-pure (ok zero)
start_loop-Keeps (suc index) =
    let ih = start_loop-Keeps index in
    Deselects-Keeps _ (
      Deselects-first _ _ (exchange-Deselects _ _ _) λ result. Keeps-if _ _ _ (Keeps-pure _) (
        Deselects-Keeps _ (
          Deselects-first _ _ (exchange-Deselects _ _ _)
            λ answer. Keeps-if _ _ _ (Keeps-pure _) ih)))

ocr_loop-Keeps : (index : ℕ) (frame : List ℕ) → Keeps (ocr_loop index frame)
unfolding ocr_loop
ocr_loop-Keeps zero frame = Keeps-pure (zero, frame)
ocr_loop-Keeps (suc index) frame = Deselects-Keeps _ (
    Deselects-last _ _ λ _. Deselects-last _ _ λ result. Deselects-last _ _ λ frame'.
      Deselects-first _ _ end_cmd-Deselects
        λ _. Keeps-if _ _ _ (Keeps-pure _) (ocr_loop-Keeps index frame'))

read_info-Keeps : (result index : ℕ) (frame : List ℕ) → Keeps (read_info result index frame)
unfolding read_info
read_info-Keeps result index frame =
    search
      (
        Keeps-if, Keeps-pure, Deselects-Keeps, Deselects-last, Deselects-first,
        get_cardinfo-Deselects,
      )
      depth 14

read_ocr-Keeps : (result : ℕ) → Keeps (read_ocr result)
unfolding read_ocr
read_ocr-Keeps result =
    Keeps-then _ _ (ocr_loop-Keeps 255 (replicate 4 0)) λ loop. read_info-Keeps result loop.0 loop.1

started-Keeps : (result : ℕ) (index : Result ℕ ℕ) → Keeps (started result index)
unfolding started
started-Keeps result (err answer) = Keeps-pure _
started-Keeps result (ok index) = Keeps-if _ _ _ (Keeps-pure _) (read_ocr-Keeps result)

check_voltage-Deselects : Deselects check_voltage
unfolding check_voltage
check_voltage-Deselects = Deselects-last _ _ λ _. Deselects-last _ _ λ result.
    Deselects-last _ _ λ _. Deselects-first _ _ end_cmd-Deselects λ _.
      Keeps-if _ _ _ (Keeps-pure _)
        (Keeps-then _ _ (start_loop-Keeps 255) λ index. started-Keeps result index)

-- The initialisation leaves the card deselected, however it ends.
pub init-Deselects : Deselects init
unfolding init
init-Deselects = Deselects-last _ _ λ _. Deselects-last _ _ λ _. Deselects-last _ _ λ _.
    Deselects-first _ _ (exchange-Deselects _ _ _)
      λ result. Keeps-if _ _ _ (Keeps-pure _) (Deselects-Keeps _ check_voltage-Deselects)

card_step-Keeps : (op : CardOp) → Keeps (card_step op)
unfolding card_step
card_step-Keeps initialise =
    Deselects-Keeps _ (Deselects-first _ _ init-Deselects λ _. Keeps-pure tt)
card_step-Keeps (read_sectors data_buf sector) =
    Deselects-Keeps _
      (Deselects-first _ _ (read_sector-Deselects data_buf sector) λ _. Keeps-pure tt)
card_step-Keeps (write_sectors fuel data_buf sector) =
    Deselects-Keeps _
      (Deselects-first _ _ (write_sector-Deselects fuel data_buf sector) λ _. Keeps-pure tt)

card_run-Keeps : (ops : List CardOp) → Keeps (card_run ops)
unfolding card_run
card_run-Keeps [] = Keeps-pure tt
card_run-Keeps (op ∷ ops) = Keeps-then _ _ (card_step-Keeps op) λ _. card_run-Keeps ops

-- After any history of initialisations, reads and writes, whatever the card answered and whether
-- they succeeded, the chip select line is high again: no operation leaves the card selected.
pub card_run-deselected :
    (ops : List CardOp) (s s' : Bus)
    → deselected s.log ≡ true
    → card_run ops s ≡ some (tt, s')
    → deselected s'.log ≡ true
unfolding Keeps
card_run-deselected ops s s' high e = card_run-Keeps ops s tt s' high e
