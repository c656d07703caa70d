-- ===== src/Usb/Device.antt =====
-- The device descriptor and the configuration descriptor of src/usb_descriptors.cpp, with the size of
-- endpoint 0 from src/tusb_config.h and the product string from src/version.hpp. The bytes of the configuration are laid out by macros of TinyUSB
-- and stand here as the arguments that they get; `desc_length` and `desc_type` are its
-- sizeof(tusb_desc_device_t) and TUSB_DESC_DEVICE.
use pixel_multiverse_firmwar.Prelude.{
  ℕ, ◌<◌, ◌≡◌, refl, ap, ◌∙◌, ◌≤◌, ◌++◌, take_all, List, ◌∷◌, some, length, take, ascii, arith,
}
use pixel_multiverse_firmwar.Usb.Descriptors.{string_header, chr_count, tud_descriptor_string_cb}

abbrev pub endpoint0_size : ℕ
endpoint0_size = 64

-- MULTIVERSE_USB_PRODUCT, of the build's MULTIVERSE_BOARD_ID
abbrev pub usb_product : List ℕ → List ℕ
usb_product board_id = ascii "Multiverse " ++ board_id

pub record DeviceDescriptor : Type 0 where
  pub b_length : ℕ
  pub b_descriptor_type : ℕ
  pub bcd_usb : ℕ
  pub b_device_class : ℕ
  pub b_device_sub_class : ℕ
  pub b_device_protocol : ℕ
  pub b_max_packet_size0 : ℕ
  pub id_vendor : ℕ
  pub id_product : ℕ
  pub bcd_device : ℕ
  pub i_manufacturer : ℕ
  pub i_product : ℕ
  pub i_serial_number : ℕ
  pub b_num_configurations : ℕ

abbrev pub desc_device : ℕ → ℕ → DeviceDescriptor
desc_device desc_length desc_type = record {
  b_length = desc_length;
  b_descriptor_type = desc_type;
  bcd_usb = 0x0110;
  b_device_class = 0;
  b_device_sub_class = 0;
  b_device_protocol = 0;
  b_max_packet_size0 = endpoint0_size;
  id_vendor = 0xCafe;
  id_product = 0x0200;
  bcd_device = 0x0100;
  i_manufacturer = 1;
  i_product = 2;
  i_serial_number = 3;
  b_num_configurations = 1;
}

pub data Interface : Type 0 where
  cdc_com : Interface
  cdc_data : Interface
  probe : Interface

-- ITF_NUM_CDC_COM and the others
abbrev pub interface_number : Interface → ℕ
interface_number cdc_com = 0
interface_number cdc_data = 1
interface_number probe = 2

abbrev pub interface_total : ℕ
interface_total = 3

-- The arguments of TUD_CDC_DESCRIPTOR and TUD_VENDOR_DESCRIPTOR behind the interface and the string.
pub record CdcEndpoints : Type 0 where
  pub notification : ℕ
  pub notification_size : ℕ
  pub data_out : ℕ
  pub data_in : ℕ
  pub data_size : ℕ

pub record VendorEndpoints : Type 0 where
  pub vendor_out : ℕ
  pub vendor_in : ℕ
  pub vendor_size : ℕ

abbrev pub cdc_descriptor : CdcEndpoints
cdc_descriptor = record {
  notification = 0x81;
  notification_size = 64;
  data_out = 0x02;
  data_in = 0x83;
  data_size = 64;
}

abbrev pub vendor_descriptor : VendorEndpoints
vendor_descriptor = record { vendor_out = 0x04; vendor_in = 0x85; vendor_size = 64 }

-- The interfaces that the configuration announces are those that there are.
interface_number-lt : (i : Interface) → interface_number i < interface_total
interface_number-lt cdc_com = omega arith
interface_number-lt cdc_data = omega arith
interface_number-lt probe = omega arith

interface_number-inj : (i j : Interface) → interface_number i ≡ interface_number j → i ≡ j
interface_number-inj cdc_com cdc_com e = refl
interface_number-inj cdc_com cdc_data e = absurd (omega (arith, e))
interface_number-inj cdc_com probe e = absurd (omega (arith, e))
interface_number-inj cdc_data cdc_com e = absurd (omega (arith, e))
interface_number-inj cdc_data cdc_data e = refl
interface_number-inj cdc_data probe e = absurd (omega (arith, e))
interface_number-inj probe cdc_com e = absurd (omega (arith, e))
interface_number-inj probe cdc_data e = absurd (omega (arith, e))
interface_number-inj probe probe e = refl

-- The strings that the device descriptor names are there: the maker, the product and the serial
-- number, each cut off to 31 characters.
desc_device-strings :
    (desc_length desc_type : ℕ) (product serial : List ℕ)
    → let d = desc_device desc_length desc_type in
      let asked = tud_descriptor_string_cb product serial in
      (asked d.i_manufacturer ≡ some (string_header 8 ∷ ascii "Pimoroni"))
      × (asked d.i_product
          ≡ some (string_header (chr_count product) ∷ take (chr_count product) product))
      × (asked d.i_serial_number
          ≡ some (string_header (chr_count serial) ∷ take (chr_count serial) serial))
unfolding tud_descriptor_string_cb
desc_device-strings desc_length desc_type product serial = (refl, refl, refl)

-- A board's id of at most 20 characters is in the product string whole.
desc_device-usb_product :
    (desc_length desc_type : ℕ) (board_id serial : List ℕ)
    → length board_id ≤ 20
    → tud_descriptor_string_cb
        (usb_product board_id)
        serial
        (desc_device desc_length desc_type).i_product
      ≡ some (string_header (length (usb_product board_id)) ∷ usb_product board_id)
desc_device-usb_product desc_length desc_type board_id serial short =
    let p = usb_product board_id in
    let all : chr_count p ≡ length p = ground (arith, short) in
    (desc_device-strings desc_length desc_type p serial).1
    ∙ (ap (λ n. some (string_header n ∷ take n p)) all
        ∙ ap (λ w. some (string_header (length p) ∷ w)) (take_all (length p) p refl))
