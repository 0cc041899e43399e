-- ===== src/Pci/Tests.antt =====
-- A bus with one WiFi card of Intel, device 3 of bus 0.
use ro_dos.Prelude.{ℕ, ◌≡◌, refl, ◌&&◌, [], ◌∷◌, ltb, leb, ◌==◌, if◌then◌else◌}
use ro_dos.Pci.{
  PciPorts, PciDevice, config_address, scan_functions, scan_function, store_info,
  pci_get_device_info, pci_device_exists, pci_config_read,
}

abbrev registers : ℕ → ℕ
registers address =
    if address == config_address 0 3 0 0
    then 0x24F38086
    else if leb (config_address 0 3 0 0) address && ltb address (config_address 0 3 1 0)
    then 0
    else 0xFFFFFFFF

-- The state is the address that was written last.
abbrev one_card : PciPorts
one_card = record {
  Bus = ℕ;
  outl = λ port v b. if port == 0xCF8 then v else b;
  inl = λ port b. (registers b, b);
}

abbrev card : PciDevice
card = record {
  vendor_id = 0x8086;
  device_id = 0x24F3;
  bus = 0;
  device = 3;
  function = 0;
  class_code = 0;
  subclass = 0;
  prog_if = 0;
  revision = 0;
  bar0 = 0;
  bar1 = 0;
  irq = 0;
}

card_is_found : (scan_functions one_card 8 4 0 3 0 [] 0).0 ≡ card ∷ []
unfolding scan_functions scan_function store_info pci_get_device_info pci_device_exists
    pci_config_read
card_is_found = refl
