-- ===== src/Pci/Registers.antt =====
-- A bus of src/pci.c whose registers keep their values, and the devices that are present on it.
use ro_dos.Prelude.{
  ℕ, zero, suc, ◌+◌, ◌/◌, ◌%◌, ◌^◌, ◌≡◌, Bool, not, ◌&&◌, List, [], ◌∷◌, ◌++◌, ◌==◌, if◌then◌else◌,
}
use ro_dos.Pci.{PciPorts, PciDevice, config_address}

-- Configuration mechanism 1: a register that is read by its address has its value, whatever was read
-- before.
pub record Keeps (ports : PciPorts) (registers : ℕ → ℕ) : Type 0 where
  pub kept :
      (address : ℕ) (b : ports.Bus)
      → (ports.inl 0xCFC (ports.outl 0xCF8 address b)).0 ≡ registers address

module _ (registers : ℕ → ℕ) where
  abbrev pub is_present : ℕ → ℕ → ℕ → Bool
  is_present bus device function =
      let ids = registers (config_address bus device function 0) in
      not (ids == 0xFFFFFFFF) && not (ids % 65536 == 0xFFFF)

  -- Bit 23 of register 0x0C of function 0 is clear.
  abbrev pub is_single : ℕ → ℕ → Bool
  is_single bus device = registers (config_address bus device 0 0x0C) / 2 ^ 23 % 2 == 0

  abbrev pub described : ℕ → ℕ → ℕ → PciDevice
  described bus device function =
      let register : ℕ → ℕ = λ offset. registers (config_address bus device function offset) in
      record {
        vendor_id = register 0 % 65536;
        device_id = register 0 / 65536 % 65536;
        bus = bus;
        device = device;
        function = function;
        class_code = register 8 / 2 ^ 24 % 256;
        subclass = register 8 / 2 ^ 16 % 256;
        prog_if = register 8 / 256 % 256;
        revision = register 8 % 256;
        bar0 = register 0x10;
        bar1 = register 0x14;
        irq = register 0x3C % 256;
      }

  abbrev pub function_at : ℕ → ℕ → ℕ → List PciDevice
  function_at bus device function =
      if is_present bus device function then described bus device function ∷ [] else []

  abbrev pub functions_from : ℕ → ℕ → ℕ → ℕ → List PciDevice
  functions_from zero bus device function = []
  functions_from (suc n) bus device function =
      function_at bus device function ++ functions_from n bus device (function + 1)

  -- All functions that are there, or the first one alone of a device that has no others.
  abbrev pub device_at : ℕ → ℕ → List PciDevice
  device_at bus device =
      if is_present bus device 0 && is_single bus device
      then function_at bus device 0
      else functions_from 8 bus device 0

  abbrev pub devices_from : ℕ → ℕ → ℕ → List PciDevice
  devices_from zero bus device = []
  devices_from (suc n) bus device = device_at bus device ++ devices_from n bus (device + 1)

  abbrev pub buses_from : ℕ → ℕ → List PciDevice
  buses_from zero bus = []
  buses_from (suc n) bus = devices_from 32 bus 0 ++ buses_from n (bus + 1)
