-- ===== src/Pci/Scan.antt =====
-- What src/pci.c finds on the bus.
use mathlib.Core.List.{append_assoc, append-nil}
use mathlib.Core.Path.{subst}
use ro_dos.Array.Slots.{take-append}
use ro_dos.Prelude.{
  ℕ, zero, suc, ◌+◌, ◌≤◌, ◌≡◌, sym, ap, ◌∙◌, inl, inr, List, [], ◌∷◌, ◌++◌, arith, ltb, ◌==◌,
  if◌then◌else◌, ltb→lt, Bool-cases, length, take, length-append, take-all,
}
use ro_dos.Pci.{
  PciPorts, PciDevice, pci_is_wifi_device, wifi_loop, store_info, scan_function, scan_functions,
  scan_devices, scan_buses, pci_device_exists, pci_get_device_info, pci_enumerate_devices,
  pci_find_wifi_devices,
}

-- The WiFi devices of a list, in order.
abbrev pub wifi_of : List PciDevice → List PciDevice
wifi_of [] = []
wifi_of (dev ∷ devs) = if pci_is_wifi_device dev then dev ∷ wifi_of devs else wifi_of devs

wifi_loop_lem :
    (devs : List PciDevice) (max : ℕ) (found : List PciDevice)
    → length found ≤ max
    → wifi_loop max found devs ≡ take max (found ++ wifi_of devs)
unfolding wifi_loop
wifi_loop_lem [] max found h = rw (append-nil found) (sym (take-all max found h))
wifi_loop_lem (dev ∷ devs) max found h = elim (Bool-cases (ltb (length found) max)) [
  | inl room ↦ elim (Bool-cases (pci_is_wifi_device dev)) [
    | inl w ↦
        rw (room, w)
          (wifi_loop_lem devs max (found ++ dev ∷ [])
              (omega (arith, length-append found (dev ∷ []), ltb→lt (length found) max room))
            ∙ ap (take max) (append_assoc found (dev ∷ []) (wifi_of devs)))
    | inr w ↦ rw (room, w) (wifi_loop_lem devs max found h)
  ]
  | inr full ↦
      let same : length found ≡ max = ground arith in
      rw full (
        sym (
          subst (λ n. take n (found ++ wifi_of (dev ∷ devs)) ≡ found) same
            (take-append found (wifi_of (dev ∷ devs)))))
]

module _ (ports : PciPorts) (max : ℕ) where
  store_lem :
      (bus device function : ℕ) (found : List PciDevice) (b : ports.Bus)
      → length found ≤ max
      → length (store_info ports max bus device function found b).0 ≤ max
  unfolding store_info
  store_lem bus device function found b h = elim (Bool-cases (ltb (length found) max)) [
    | inl room ↦ rw room (
        omega (
          arith,
          length-append found ((pci_get_device_info ports bus device function b).0 ∷ []),
          ltb→lt (length found) max room,
        ))
    | inr full ↦ rw full h
  ]

  scan_function_lem :
      (bus device function : ℕ) (found : List PciDevice) (b : ports.Bus)
      → length found ≤ max
      → length (scan_function ports max bus device function found b).1.0 ≤ max
  unfolding scan_function
  scan_function_lem bus device function found b h =
      let e = pci_device_exists ports bus device function b in
      let s = store_lem bus device function found e.1 h in
      elim (Bool-cases e.0) [
        | inl there ↦ elim (Bool-cases (function == 0)) [
          | inl first ↦ rw (there, first) s
          | inr other ↦ rw (there, other) s
        ]
        | inr absent ↦ rw absent h
      ]

  scan_functions_lem :
      (left bus device function : ℕ) (found : List PciDevice) (b : ports.Bus)
      → length found ≤ max
      → length (scan_functions ports left max bus device function found b).0 ≤ max
  unfolding scan_functions
  scan_functions_lem zero bus device function found b h = h
  scan_functions_lem (suc left) bus device function found b h =
      let r = scan_function ports max bus device function found b in
      let one = scan_function_lem bus device function found b h in
      elim (Bool-cases r.0) [
        | inl ends ↦ rw ends one
        | inr goes_on ↦
            rw goes_on (scan_functions_lem left bus device (function + 1) r.1.0 r.1.1 one)
      ]

  scan_devices_lem :
      (left bus device : ℕ) (found : List PciDevice) (b : ports.Bus)
      → length found ≤ max
      → length (scan_devices ports left max bus device found b).0 ≤ max
  unfolding scan_devices
  scan_devices_lem zero bus device found b h = h
  scan_devices_lem (suc left) bus device found b h =
      let r = scan_functions ports 8 max bus device 0 found b in
      scan_devices_lem left bus (device + 1) r.0 r.1 (scan_functions_lem 8 bus device 0 found b h)

  scan_buses_lem :
      (left bus : ℕ) (found : List PciDevice) (b : ports.Bus)
      → length found ≤ max
      → length (scan_buses ports left max bus found b).0 ≤ max
  unfolding scan_buses
  scan_buses_lem zero bus found b h = h
  scan_buses_lem (suc left) bus found b h =
      let r = scan_devices ports 32 max bus 0 found b in
      scan_buses_lem left (bus + 1) r.0 r.1 (scan_devices_lem 32 bus 0 found b h)

  -- `pci_enumerate_devices` finds at most `max_devices` devices, the room of its array, whatever the
  -- bus answers.
  pub length-pci_enumerate_devices :
      (b : ports.Bus) → length (pci_enumerate_devices ports max b).0 ≤ max
  unfolding pci_enumerate_devices
  length-pci_enumerate_devices b = scan_buses_lem 8 0 [] b (omega arith)

  -- `pci_find_wifi_devices` gives the first `max_devices` of the WiFi devices that
  -- `pci_enumerate_devices` finds with room for 64, in its order.
  pub pci_find_wifi_devices-wifi_of :
      (b : ports.Bus)
      → (pci_find_wifi_devices ports max b).0
        ≡ take max (wifi_of (pci_enumerate_devices ports 64 b).0)
  unfolding pci_find_wifi_devices
  pci_find_wifi_devices-wifi_of b =
      wifi_loop_lem (pci_enumerate_devices ports 64 b).0 max [] (omega arith)
