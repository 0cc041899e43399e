-- ===== src/Pci.antt =====
-- src/pci.c: the devices on the PCI bus. The ports are a parameter; an array of devices with its count
-- is the list of the devices in it.
mod Registers
mod Present
mod Scan
mod Tests
use ro_dos.Prelude.{
  ℕ, zero, suc, ◌+◌, ◌*◌, ◌/◌, ◌%◌, ◌^◌, inl, Bool, true, false, not, ◌&&◌, ◌||◌, List, [], ◌∷◌,
  ◌++◌, ltb, ◌==◌, if◌then◌else◌, length,
}

-- What `outl` and `inl` do, with numbers below 2 ^ 32.
pub record PciPorts : Type 1 where
  pub Bus : Type 0
  pub outl : ℕ → ℕ → Bus → Bus
  pub inl : ℕ → Bus → ℕ × Bus

-- pci_device_t
pub record PciDevice : Type 0 where
  pub vendor_id : ℕ
  pub device_id : ℕ
  pub bus : ℕ
  pub device : ℕ
  pub function : ℕ
  pub class_code : ℕ
  pub subclass : ℕ
  pub prog_if : ℕ
  pub revision : ℕ
  pub bar0 : ℕ
  pub bar1 : ℕ
  pub irq : ℕ

-- The address of a register, for a device below 32 and a function below 8.
abbrev pub config_address : ℕ → ℕ → ℕ → ℕ → ℕ
config_address bus device function offset =
    0x80000000 + bus * 65536 + device * 2048 + function * 256 + offset / 4 * 4

abbrev pub is_one_of : List ℕ → ℕ → Bool
is_one_of [] n = false
is_one_of (m ∷ ms) n = n == m || is_one_of ms n

-- The device numbers of the WiFi cards of Intel and of Realtek.
abbrev pub intel_wifi : List ℕ
intel_wifi = 0x08B1 ∷ 0x24F3 ∷ 0x2526 ∷ 0x2723 ∷ 0x43F0 ∷ []

abbrev pub realtek_wifi : List ℕ
realtek_wifi = 0x8179 ∷ 0x818B ∷ 0x8821 ∷ 0xB822 ∷ []

unfoldable pub pci_is_wifi_device : PciDevice → Bool
pci_is_wifi_device dev =
    if dev.class_code == 2 && dev.subclass == 0x80
    then true
    else if dev.vendor_id == 0x8086
    then is_one_of intel_wifi dev.device_id
    else if dev.vendor_id == 0x10EC
    then is_one_of realtek_wifi dev.device_id
    else is_one_of (0x168C ∷ 0x14E4 ∷ 0x1814 ∷ []) dev.vendor_id

-- The loop of `pci_find_wifi_devices` over the devices that are left, with those found so far.
unfoldable pub wifi_loop : ℕ → List PciDevice → List PciDevice → List PciDevice
wifi_loop max found [] = found
wifi_loop max found (dev ∷ devs) =
    let rest = wifi_loop max (if pci_is_wifi_device dev then found ++ dev ∷ [] else found) devs in
    if ltb (length found) max then rest else found

-- Whether a device has the numbers that are asked for.
abbrev pub has_ids : ℕ → ℕ → PciDevice → Bool
has_ids vendor id dev = dev.vendor_id == vendor && dev.device_id == id

-- The loop of `pci_find_device`, with what it returns when there is none.
unfoldable pub find_loop : ℕ → ℕ → PciDevice → List PciDevice → PciDevice
find_loop vendor id invalid [] = invalid
find_loop vendor id invalid (dev ∷ devs) =
    let rest = find_loop vendor id invalid devs in if has_ids vendor id dev then dev else rest

module _ (ports : PciPorts) where
  unfoldable pub pci_config_read : ℕ → ℕ → ℕ → ℕ → ports.Bus → ℕ × ports.Bus
  pci_config_read bus device function offset b =
      ports.inl 0xCFC (ports.outl 0xCF8 (config_address bus device function offset) b)

  unfoldable pub pci_config_write : ℕ → ℕ → ℕ → ℕ → ℕ → ports.Bus → ports.Bus
  pci_config_write bus device function offset value b =
      ports.outl 0xCFC value (ports.outl 0xCF8 (config_address bus device function offset) b)

  unfoldable pub pci_device_exists : ℕ → ℕ → ℕ → ports.Bus → Bool × ports.Bus
  pci_device_exists bus device function b =
      let r = pci_config_read bus device function 0 b in
      (not (r.0 == 0xFFFFFFFF) && not (r.0 % 65536 == 0xFFFF), r.1)

  unfoldable pub pci_get_device_info : ℕ → ℕ → ℕ → ports.Bus → PciDevice × ports.Bus
  pci_get_device_info bus device function b =
      let ids = pci_config_read bus device function 0 b in
      let class_info = pci_config_read bus device function 8 ids.1 in
      let first = pci_config_read bus device function 0x10 class_info.1 in
      let second = pci_config_read bus device function 0x14 first.1 in
      let irq_info = pci_config_read bus device function 0x3C second.1 in
      (
        record {
          vendor_id = ids.0 % 65536;
          device_id = ids.0 / 65536 % 65536;
          bus = bus;
          device = device;
          function = function;
          class_code = class_info.0 / 2 ^ 24 % 256;
          subclass = class_info.0 / 2 ^ 16 % 256;
          prog_if = class_info.0 / 256 % 256;
          revision = class_info.0 % 256;
          bar0 = first.0;
          bar1 = second.0;
          irq = irq_info.0 % 256;
        },
        irq_info.1,
      )

  -- A device that is there: it is stored when there is room.
  unfoldable pub store_info :
      ℕ → ℕ → ℕ → ℕ → List PciDevice → ports.Bus → List PciDevice × ports.Bus
  store_info max bus device function found b =
      let info = pci_get_device_info bus device function b in
      if ltb (length found) max then (found ++ info.0 ∷ [], info.1) else (found, b)

  -- One function of a device: whether the loop ends with it, and what was found.
  unfoldable pub scan_function :
      ℕ → ℕ → ℕ → ℕ → List PciDevice → ports.Bus → Bool × (List PciDevice × ports.Bus)
  scan_function max bus device function found b =
      let e = pci_device_exists bus device function b in
      let s = store_info max bus device function found e.1 in
      let header = pci_config_read bus device 0 0x0C s.1 in
      if e.0
      then (if function == 0 then (header.0 / 2 ^ 23 % 2 == 0, (s.0, header.1)) else (false, s))
      else (false, (found, e.1))

  -- The functions that are left.
  unfoldable pub scan_functions :
      ℕ → ℕ → ℕ → ℕ → ℕ → List PciDevice → ports.Bus → List PciDevice × ports.Bus
  scan_functions zero max bus device function found b = (found, b)
  scan_functions (suc left) max bus device function found b =
      let r = scan_function max bus device function found b in
      let rest = scan_functions left max bus device (function + 1) r.1.0 r.1.1 in
      if r.0 then r.1 else rest

  unfoldable pub scan_devices :
      ℕ → ℕ → ℕ → ℕ → List PciDevice → ports.Bus → List PciDevice × ports.Bus
  scan_devices zero max bus device found b = (found, b)
  scan_devices (suc left) max bus device found b =
      let r = scan_functions 8 max bus device 0 found b in
      scan_devices left max bus (device + 1) r.0 r.1

  unfoldable pub scan_buses : ℕ → ℕ → ℕ → List PciDevice → ports.Bus → List PciDevice × ports.Bus
  scan_buses zero max bus found b = (found, b)
  scan_buses (suc left) max bus found b =
      let r = scan_devices 32 max bus 0 found b in scan_buses left max (bus + 1) r.0 r.1

  unfoldable pub pci_enumerate_devices : ℕ → ports.Bus → List PciDevice × ports.Bus
  pci_enumerate_devices max b = scan_buses 8 max 0 [] b

  unfoldable pub pci_find_wifi_devices : ℕ → ports.Bus → List PciDevice × ports.Bus
  pci_find_wifi_devices max b =
      let all = pci_enumerate_devices 64 b in (wifi_loop max [] all.0, all.1)

  unfoldable pub pci_enable_device : PciDevice → ports.Bus → ports.Bus
  pci_enable_device dev b =
      let command = pci_config_read dev.bus dev.device dev.function 4 b in
      pci_config_write dev.bus dev.device dev.function 4 (command.0 / 8 * 8 + 7) command.1

  -- `blank` is what the stack holds in the fields that are not set.
  unfoldable pub pci_find_device : ℕ → ℕ → PciDevice → ports.Bus → PciDevice × ports.Bus
  pci_find_device vendor id blank b =
      let all = pci_enumerate_devices 64 b in
      (find_loop vendor id (record blank { vendor_id = 0xFFFF; device_id = 0xFFFF }) all.0, all.1)
