-- ===== src/Drivers/Sdcard/Fields.antt =====
-- The registers as numbers: the fields that the driver takes are the bits that the SD specification
-- names.
use hecto_os.Base.{
  ℕ, ◌+◌, ◌*◌, ◌/◌, ◌%◌, ◌-◌, ◌^◌, ◌<◌, ◌≡◌, List, [], ◌∷◌, bit_and, bit_or, All, arith,
}
use hecto_os.Base.Bits.{bit_and-mask, bit_and-high, bit_or-shift}
use hecto_os.Drivers.Sdcard.Registers.{SdCardCsd, SdCardCid, csd_of, cid_of, field}

abbrev pub number_of : ℕ → List ℕ → ℕ
number_of n [] = n
number_of n (b ∷ bytes) = number_of (n * 256 + b) bytes

-- The bits hi to lo of a register of which `bytes` are the bytes, the highest first
abbrev pub bits : List ℕ → ℕ → ℕ → ℕ
bits bytes hi lo = number_of 0 bytes / 2 ^ lo % 2 ^ (hi - lo + 1)

abbrev pub Bytes : List ℕ → Type 0
Bytes = All (λ b. b < 256)

-- Joining bytes to a word
join2 : (a b : ℕ) → b < 256 → bit_or (a * 2 ^ 8) b ≡ a * 256 + b
join2 a b h = omega (arith, bit_or-shift 8 a b h)

join3 :
    (a b c : ℕ)
    → b < 256
    → c < 256
    → bit_or (bit_or (a * 2 ^ 16) (b * 2 ^ 8)) c ≡ a * 65536 + b * 256 + c
join3 a b c hb hc =
    let high : bit_or (a * 2 ^ 16) (b * 2 ^ 8) ≡ (a * 256 + b) * 2 ^ 8 =
      omega (arith, bit_or-shift 16 a (b * 2 ^ 8) (omega arith)) in
    rw high (omega (arith, bit_or-shift 8 (a * 256 + b) c hc))

join4 :
    (a b c d : ℕ)
    → b < 256
    → c < 256
    → d < 256
    → bit_or (bit_or (bit_or (a * 2 ^ 24) (b * 2 ^ 16)) (c * 2 ^ 8)) d
      ≡ a * 16777216 + b * 65536 + c * 256 + d
join4 a b c d hb hc hd =
    let high : bit_or (a * 2 ^ 24) (b * 2 ^ 16) ≡ (a * 256 + b) * 2 ^ 16 =
      omega (arith, bit_or-shift 24 a (b * 2 ^ 16) (omega arith)) in
    rw high (omega (arith, join3 (a * 256 + b) c d hc hd))

-- The layout of the CSD, version 2, and of the CID in the SD specification
abbrev pub IsCsd : SdCardCsd → List ℕ → Type 0
IsCsd r bytes =
    (r.csd_struct ≡ bits bytes 127 126)
    × (r.sys_spec_version ≡ bits bytes 125 122)
    × (r.taac ≡ bits bytes 119 112)
    × (r.nsac ≡ bits bytes 111 104)
    × (r.max_bus_clk_frec ≡ bits bytes 103 96)
    × (r.card_comd_classes ≡ bits bytes 95 84)
    × (r.rd_block_len ≡ bits bytes 83 80)
    × (r.part_block_read ≡ bits bytes 79 79)
    × (r.wr_block_misalign ≡ bits bytes 78 78)
    × (r.rd_block_misalign ≡ bits bytes 77 77)
    × (r.dsr_impl ≡ bits bytes 76 76)
    × (r.device_size ≡ bits bytes 69 48)
    × (r.erase_gr_size ≡ bits bytes 46 46)
    × (r.erase_gr_mul ≡ bits bytes 45 39)
    × (r.wr_protect_gr_size ≡ bits bytes 38 32)
    × (r.wr_protect_gr_enable ≡ bits bytes 31 31)
    × (r.man_defl_ecc ≡ bits bytes 30 29)
    × (r.wr_speed_fact ≡ bits bytes 28 26)
    × (r.max_wr_block_len ≡ bits bytes 25 22)
    × (r.write_block_pa_partial ≡ bits bytes 21 21)
    × (r.content_protect_appli ≡ bits bytes 16 16)
    × (r.file_format_group ≡ bits bytes 15 15)
    × (r.copy_flag ≡ bits bytes 14 14)
    × (r.perm_wr_protect ≡ bits bytes 13 13)
    × (r.temp_wr_protect ≡ bits bytes 12 12)
    × (r.file_format ≡ bits bytes 11 10)
    × (r.ecc ≡ bits bytes 9 8)
    × (r.csd_crc ≡ bits bytes 7 1)

abbrev pub IsCid : SdCardCid → List ℕ → Type 0
IsCid r bytes =
    (r.manufacturer_id ≡ bits bytes 127 120)
    × (r.oem_appli_id ≡ bits bytes 119 104)
    × (r.prod_name1 ≡ bits bytes 103 72)
    × (r.prod_name2 ≡ bits bytes 71 64)
    × (r.prod_rev ≡ bits bytes 63 56)
    × (r.prod_sn ≡ bits bytes 55 24)
    × (r.reserved1 ≡ bits bytes 23 20)
    × (r.manufact_date ≡ bits bytes 19 8)
    × (r.cid_crc ≡ bits bytes 7 1)

-- Each field of the CSD that the driver reads is the bits of the 128-bit register that the
-- specification has for it, whatever the CRC bytes after it are.
pub csd_of-IsCsd :
    (b0 b1 b2 b3 b4 b5 b6 b7 b8 b9 b10 b11 b12 b13 b14 b15 c0 c1 : ℕ)
    → Bytes
        (b0 ∷ b1 ∷ b2 ∷ b3 ∷ b4 ∷ b5 ∷ b6 ∷ b7 ∷ b8 ∷ b9 ∷ b10 ∷ b11 ∷ b12 ∷ b13 ∷ b14 ∷ b15 ∷ [])
    → IsCsd
        (csd_of (
          b0 ∷ b1 ∷ b2 ∷ b3 ∷ b4 ∷ b5 ∷ b6 ∷ b7 ∷ b8 ∷ b9 ∷ b10 ∷ b11 ∷ b12 ∷ b13 ∷ b14 ∷ b15 ∷ c0
          ∷ c1 ∷ []))
        (b0 ∷ b1 ∷ b2 ∷ b3 ∷ b4 ∷ b5 ∷ b6 ∷ b7 ∷ b8 ∷ b9 ∷ b10 ∷ b11 ∷ b12 ∷ b13 ∷ b14 ∷ b15 ∷ [])
unfolding csd_of
csd_of-IsCsd b0 b1 b2 b3 b4 b5 b6 b7 b8 b9 b10 b11 b12 b13 b14 b15 c0 c1 h = (
  omega (arith, bit_and-high 6 2 b0),
  omega (arith, bit_and-high 2 4 b0),
  omega arith,
  omega arith,
  omega arith,
  omega (arith, bit_and-high 4 4 b5, bit_or-shift 4 b4 (field b5 0xF0 4)),
  omega (arith, bit_and-mask 4 b5),
  omega (arith, bit_and-high 7 1 b6),
  omega (arith, bit_and-high 6 1 b6),
  omega (arith, bit_and-high 5 1 b6),
  omega (arith, bit_and-high 4 1 b6),
  omega (arith, bit_and-mask 6 b7, join3 (bit_and b7 0x3F) b8 b9),
  omega (arith, bit_and-high 6 1 b10),
  omega (
    arith,
    bit_and-mask 6 b10,
    bit_and-high 7 1 b11,
    bit_or-shift 1 (bit_and b10 0x3F) (field b11 0x80 7),
  ),
  omega (arith, bit_and-mask 7 b11),
  omega (arith, bit_and-high 7 1 b12),
  omega (arith, bit_and-high 5 2 b12),
  omega (arith, bit_and-high 2 3 b12),
  omega (
    arith,
    bit_and-mask 2 b12,
    bit_and-high 6 2 b13,
    bit_or-shift 2 (bit_and b12 0x03) (field b13 0xC0 6),
  ),
  omega (arith, bit_and-high 5 1 b13),
  omega (arith, bit_and-mask 1 b13),
  omega (arith, bit_and-high 7 1 b14),
  omega (arith, bit_and-high 6 1 b14),
  omega (arith, bit_and-high 5 1 b14),
  omega (arith, bit_and-high 4 1 b14),
  omega (arith, bit_and-high 2 2 b14),
  omega (arith, bit_and-mask 2 b14),
  omega (arith, bit_and-high 1 7 b15),
)

-- So is each field of the CID.
pub cid_of-IsCid :
    (b0 b1 b2 b3 b4 b5 b6 b7 b8 b9 b10 b11 b12 b13 b14 b15 c0 c1 : ℕ)
    → Bytes
        (b0 ∷ b1 ∷ b2 ∷ b3 ∷ b4 ∷ b5 ∷ b6 ∷ b7 ∷ b8 ∷ b9 ∷ b10 ∷ b11 ∷ b12 ∷ b13 ∷ b14 ∷ b15 ∷ [])
    → IsCid
        (cid_of (
          b0 ∷ b1 ∷ b2 ∷ b3 ∷ b4 ∷ b5 ∷ b6 ∷ b7 ∷ b8 ∷ b9 ∷ b10 ∷ b11 ∷ b12 ∷ b13 ∷ b14 ∷ b15 ∷ c0
          ∷ c1 ∷ []))
        (b0 ∷ b1 ∷ b2 ∷ b3 ∷ b4 ∷ b5 ∷ b6 ∷ b7 ∷ b8 ∷ b9 ∷ b10 ∷ b11 ∷ b12 ∷ b13 ∷ b14 ∷ b15 ∷ [])
unfolding cid_of
cid_of-IsCid b0 b1 b2 b3 b4 b5 b6 b7 b8 b9 b10 b11 b12 b13 b14 b15 c0 c1 h = (
  omega arith,
  omega (arith, join2 b1 b2),
  omega (arith, join4 b3 b4 b5 b6),
  omega arith,
  omega arith,
  omega (arith, join4 b9 b10 b11 b12),
  omega (arith, bit_and-high 4 4 b13),
  omega (arith, bit_and-mask 4 b13, join2 (bit_and b13 0x0F) b14),
  omega (arith, bit_and-high 1 7 b15),
)
