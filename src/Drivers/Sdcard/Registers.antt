-- ===== src/Drivers/Sdcard/Registers.antt =====
-- The registers CSD and CID of kernel/src/drivers/block/sdcard.rs, as the driver takes them from the
-- bytes of the card.
use hecto_os.Base.{ℕ, ◌+◌, ◌*◌, ◌^◌, List, bit_and, bit_or, get_or}
use hecto_os.Base.Word.{shr}

pub record SdCardCsd : Type 0 where
  pub csd_struct : ℕ
  pub sys_spec_version : ℕ
  pub reserved1 : ℕ
  pub taac : ℕ
  pub nsac : ℕ
  pub max_bus_clk_frec : ℕ
  pub card_comd_classes : ℕ
  pub rd_block_len : ℕ
  pub part_block_read : ℕ
  pub wr_block_misalign : ℕ
  pub rd_block_misalign : ℕ
  pub dsr_impl : ℕ
  pub reserved2 : ℕ
  pub device_size : ℕ
  pub erase_gr_size : ℕ
  pub erase_gr_mul : ℕ
  pub wr_protect_gr_size : ℕ
  pub wr_protect_gr_enable : ℕ
  pub man_defl_ecc : ℕ
  pub wr_speed_fact : ℕ
  pub max_wr_block_len : ℕ
  pub write_block_pa_partial : ℕ
  pub reserved3 : ℕ
  pub content_protect_appli : ℕ
  pub file_format_group : ℕ
  pub copy_flag : ℕ
  pub perm_wr_protect : ℕ
  pub temp_wr_protect : ℕ
  pub file_format : ℕ
  pub ecc : ℕ
  pub csd_crc : ℕ
  pub reserved4 : ℕ

pub record SdCardCid : Type 0 where
  pub manufacturer_id : ℕ
  pub oem_appli_id : ℕ
  pub prod_name1 : ℕ
  pub prod_name2 : ℕ
  pub prod_rev : ℕ
  pub prod_sn : ℕ
  pub reserved1 : ℕ
  pub manufact_date : ℕ
  pub cid_crc : ℕ
  pub reserved2 : ℕ

pub record SdCardInfo : Type 0 where
  pub sd_csd : SdCardCsd
  pub sd_cid : SdCardCid
  pub card_capacity : ℕ
  pub card_block_size : ℕ

-- A shift to the left of a value that keeps all of its bits in the wider type it has there
abbrev up : ℕ → ℕ → ℕ
up x k = x * 2 ^ k

-- `(x & mask) >> k`
abbrev pub field : ℕ → ℕ → ℕ → ℕ
field x mask k = shr (bit_and x mask) k

unfoldable pub csd_of : List ℕ → SdCardCsd
csd_of t = record {
  csd_struct = field (get_or t 0 0) 0xC0 6;
  sys_spec_version = field (get_or t 0 0) 0x3C 2;
  reserved1 = bit_and (get_or t 0 0) 0x03;
  taac = get_or t 1 0;
  nsac = get_or t 2 0;
  max_bus_clk_frec = get_or t 3 0;
  card_comd_classes = bit_or (up (get_or t 4 0) 4) (field (get_or t 5 0) 0xF0 4);
  rd_block_len = bit_and (get_or t 5 0) 0x0F;
  part_block_read = field (get_or t 6 0) 0x80 7;
  wr_block_misalign = field (get_or t 6 0) 0x40 6;
  rd_block_misalign = field (get_or t 6 0) 0x20 5;
  dsr_impl = field (get_or t 6 0) 0x10 4;
  reserved2 = 0;
  device_size =
      bit_or (bit_or (up (bit_and (get_or t 7 0) 0x3F) 16) (up (get_or t 8 0) 8)) (get_or t 9 0);
  erase_gr_size = field (get_or t 10 0) 0x40 6;
  erase_gr_mul = bit_or (up (bit_and (get_or t 10 0) 0x3F) 1) (field (get_or t 11 0) 0x80 7);
  wr_protect_gr_size = bit_and (get_or t 11 0) 0x7F;
  wr_protect_gr_enable = field (get_or t 12 0) 0x80 7;
  man_defl_ecc = field (get_or t 12 0) 0x60 5;
  wr_speed_fact = field (get_or t 12 0) 0x1C 2;
  max_wr_block_len = bit_or (up (bit_and (get_or t 12 0) 0x03) 2) (field (get_or t 13 0) 0xC0 6);
  write_block_pa_partial = field (get_or t 13 0) 0x20 5;
  reserved3 = 0;
  content_protect_appli = bit_and (get_or t 13 0) 0x01;
  file_format_group = field (get_or t 14 0) 0x80 7;
  copy_flag = field (get_or t 14 0) 0x40 6;
  perm_wr_protect = field (get_or t 14 0) 0x20 5;
  temp_wr_protect = field (get_or t 14 0) 0x10 4;
  file_format = field (get_or t 14 0) 0x0C 2;
  ecc = bit_and (get_or t 14 0) 0x03;
  csd_crc = field (get_or t 15 0) 0xFE 1;
  reserved4 = 1;
}

-- four bytes, the highest first
abbrev be32 : List ℕ → ℕ → ℕ
be32 t i =
    bit_or
      (bit_or (bit_or (up (get_or t i 0) 24) (up (get_or t (i + 1) 0) 16))
        (up (get_or t (i + 2) 0) 8))
      (get_or t (i + 3) 0)

unfoldable pub cid_of : List ℕ → SdCardCid
cid_of t = record {
  manufacturer_id = get_or t 0 0;
  oem_appli_id = bit_or (up (get_or t 1 0) 8) (get_or t 2 0);
  prod_name1 = be32 t 3;
  prod_name2 = get_or t 7 0;
  prod_rev = get_or t 8 0;
  prod_sn = be32 t 9;
  reserved1 = field (get_or t 13 0) 0xF0 4;
  manufact_date = bit_or (up (bit_and (get_or t 13 0) 0x0F) 8) (get_or t 14 0);
  cid_crc = field (get_or t 15 0) 0xFE 1;
  reserved2 = 1;
}

-- The end of get_cardinfo
unfoldable pub info_of : SdCardCsd → SdCardCid → SdCardInfo
info_of csd cid = record {
  sd_csd = csd;
  sd_cid = cid;
  card_capacity = (csd.device_size + 1) * 1024 * 2 ^ csd.rd_block_len;
  card_block_size = 2 ^ csd.rd_block_len;
}
