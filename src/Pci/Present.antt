-- ===== src/Pci/Present.antt =====
-- The scan of src/pci.c on a bus whose registers keep their values.
use mathlib.Core.Path.{subst}
use mathlib.Core.List.{append_assoc, append-nil}
use ro_dos.Prelude.{
  ℕ, zero, suc, ◌+◌, ◌%◌, ◌≤◌, ◌<◌, ◌≡◌, refl, sym, ap, ◌∙◌, inl, inr, Bool, true, false, not, ◌&&◌,
  List, [], ◌∷◌, ◌++◌, arith, ltb, ◌==◌, ltb→lt, Bool-cases, length, take, length-append,
  length-take, take-all,
}
use ro_dos.Array.Slots.{take-append}
use ro_dos.Pci.{
  PciPorts, PciDevice, config_address, pci_config_read, store_info, scan_function, scan_functions,
  scan_devices, scan_buses, pci_enumerate_devices, pci_device_exists, pci_get_device_info,
}
use ro_dos.Pci.Registers.{
  Keeps, is_present, is_single, described, function_at, functions_from, device_at, devices_from,
  buses_from,
}

take-take-append {ℓ} :
    {A : Type ℓ} (n : ℕ) (xs ys : List A) → take n (take n xs ++ ys) ≡ take n (xs ++ ys)
take-take-append zero xs ys = refl
take-take-append (suc n) [] ys = refl
take-take-append (suc n) (x ∷ xs) ys = ap (λ l. x ∷ l) (take-take-append n xs ys)

length-take_le {ℓ} : {A : Type ℓ} (n : ℕ) (xs : List A) → length (take n xs) ≤ n
length-take_le n xs = ground (arith, length-take n xs)

and_true : (p : Bool) → (p && true) ≡ p
and_true true = refl
and_true false = refl

-- What was found before, and what a part of the scan adds.
chain_lem :
    (max : ℕ) (found here more start : List PciDevice)
    → start ≡ take max (found ++ here)
    → take max (start ++ more) ≡ take max (found ++ (here ++ more))
chain_lem max found here more start h =
    ap (λ l. take max (l ++ more)) h
    ∙ take-take-append max (found ++ here) more
    ∙ ap (take max) (append_assoc found here more)

within_lem : (max : ℕ) (xs start : List PciDevice) → start ≡ take max xs → length start ≤ max
within_lem max xs start h = subst (λ l. length l ≤ max) (sym h) (length-take_le max xs)

module _ (ports : PciPorts) (registers : ℕ → ℕ) (reads : Keeps ports registers) (max : ℕ) where
  exists_lem :
      (bus device function : ℕ) (b : ports.Bus)
      → (pci_device_exists ports bus device function b).0 ≡ is_present registers bus device function
  unfolding pci_device_exists pci_config_read
  exists_lem bus device function b =
      ap (λ v. not (v == 0xFFFFFFFF) && not (v % 65536 == 0xFFFF))
        (reads.kept (config_address bus device function 0) b)

  info_lem :
      (bus device function : ℕ) (b : ports.Bus)
      → (pci_get_device_info ports bus device function b).0
        ≡ described registers bus device function
  unfolding pci_get_device_info pci_config_read
  info_lem bus device function b =
      rw (reads.kept, reads.kept, reads.kept, reads.kept, reads.kept) refl

  store_lem :
      (bus device function : ℕ) (found : List PciDevice) (b : ports.Bus)
      → length found ≤ max
      → (store_info ports max bus device function found b).0
        ≡ take max (found ++ described registers bus device function ∷ [])
  unfolding store_info
  store_lem bus device function found b h = elim (Bool-cases (ltb (length found) max)) [
    | inl room ↦
        let lt = ltb→lt (length found) max room in
        rw (room, info_lem bus device function b)
          (sym (
            take-all max (found ++ described registers bus device function ∷ []) (
              omega
                (arith, length-append found (described registers bus device function ∷ []), lt))))
    | inr full ↦
        let same : length found ≡ max = ground arith in
        rw full (
          sym (
            subst (λ n. take n (found ++ described registers bus device function ∷ []) ≡ found) same
              (take-append found (described registers bus device function ∷ []))))
  ]

  -- What one function adds, and whether the loop ends with it.
  step_lem :
      (bus device function : ℕ) (found : List PciDevice) (b : ports.Bus)
      → length found ≤ max
      → (scan_function ports max bus device function found b).1.0
        ≡ take max (found ++ function_at registers bus device function)
  unfolding scan_function
  step_lem bus device function found b h =
      let e = pci_device_exists ports bus device function b in
      let same = exists_lem bus device function b in
      let s = store_lem bus device function found e.1 h in
      elim (Bool-cases (is_present registers bus device function)) [
        | inl there ↦ elim (Bool-cases (function == 0)) [
          | inl first ↦ rw (same, there, first) s
          | inr other ↦ rw (same, there, other) s
        ]
        | inr absent ↦ rw (same, absent, append-nil found) (sym (take-all max found h))
      ]

  flag_lem :
      (bus device function : ℕ) (found : List PciDevice) (b : ports.Bus)
      → (scan_function ports max bus device function found b).0 ≡ (
          (is_present registers bus device function && function == 0)
          && is_single registers bus device)
  unfolding scan_function pci_config_read
  flag_lem bus device function found b =
      let same = exists_lem bus device function b in
      elim (Bool-cases (is_present registers bus device function)) [
        | inl there ↦ elim (Bool-cases (function == 0)) [
          | inl first ↦ rw (same, there, first, reads.kept) refl
          | inr other ↦ rw (same, there, other) refl
        ]
        | inr absent ↦ rw (same, absent) refl
      ]

  functions_lem :
      (left bus device function : ℕ) (found : List PciDevice) (b : ports.Bus)
      → 0 < function
      → length found ≤ max
      → (scan_functions ports left max bus device function found b).0
        ≡ take max (found ++ functions_from registers left bus device function)
  unfolding scan_functions
  functions_lem zero bus device function found b later h =
      rw (append-nil found) (sym (take-all max found h))
  functions_lem (suc left) bus device function found b later h =
      let r = scan_function ports max bus device function found b in
      let step = step_lem bus device function found b h in
      let not_first : (function == 0) ≡ false = ground arith in
      let first_only : ((is_present registers bus device function && function == 0)
            && is_single registers bus device)
          ≡ false =
        elim (Bool-cases (is_present registers bus device function)) [
          | inl there ↦ rw (there, not_first) refl
          | inr absent ↦ rw absent refl
        ] in
      let goes_on : r.0 ≡ false = flag_lem bus device function found b ∙ first_only in
      rw goes_on (
        functions_lem left bus device (function + 1) r.1.0 r.1.1 (omega arith)
          (within_lem max (found ++ function_at registers bus device function) r.1.0 step)
        ∙ chain_lem max found (function_at registers bus device function)
            (functions_from registers left bus device (function + 1)) r.1.0 step)

  device_lem :
      (bus device : ℕ) (found : List PciDevice) (b : ports.Bus)
      → length found ≤ max
      → (scan_functions ports 8 max bus device 0 found b).0
        ≡ take max (found ++ device_at registers bus device)
  unfolding scan_functions
  device_lem bus device found b h =
      let r = scan_function ports max bus device 0 found b in
      let step = step_lem bus device 0 found b h in
      let flag = flag_lem bus device 0 found b in
      let rest =
        functions_lem 7 bus device 1 r.1.0 r.1.1 (omega arith)
          (within_lem max (found ++ function_at registers bus device 0) r.1.0 step)
        ∙ chain_lem max found (function_at registers bus device 0)
            (functions_from registers 7 bus device 1) r.1.0 step in
      let alone : Bool = is_present registers bus device 0 && is_single registers bus device in
      let ends : r.0 ≡ alone =
        flag
        ∙ ap (λ p. p && is_single registers bus device)
            (and_true (is_present registers bus device 0)) in
      elim (Bool-cases alone) [
        | inl single ↦
            let one : device_at registers bus device ≡ function_at registers bus device 0 =
              rw single refl in
            let stops : r.0 ≡ true = ends ∙ single in
            rw stops (step ∙ ap (λ l. take max (found ++ l)) (sym one))
        | inr more ↦
            let all : device_at registers bus device ≡ functions_from registers 8 bus device 0 =
              rw more refl in
            let goes_on : r.0 ≡ false = ends ∙ more in
            rw goes_on (rest ∙ ap (λ l. take max (found ++ l)) (sym all))
      ]

  devices_lem :
      (left bus device : ℕ) (found : List PciDevice) (b : ports.Bus)
      → length found ≤ max
      → (scan_devices ports left max bus device found b).0
        ≡ take max (found ++ devices_from registers left bus device)
  unfolding scan_devices
  devices_lem zero bus device found b h = rw (append-nil found) (sym (take-all max found h))
  devices_lem (suc left) bus device found b h =
      let r = scan_functions ports 8 max bus device 0 found b in
      let here = device_at registers bus device in
      let one = device_lem bus device found b h in
      devices_lem left bus (device + 1) r.0 r.1 (within_lem max (found ++ here) r.0 one)
      ∙ chain_lem max found here (devices_from registers left bus (device + 1)) r.0 one

  buses_lem :
      (left bus : ℕ) (found : List PciDevice) (b : ports.Bus)
      → length found ≤ max
      → (scan_buses ports left max bus found b).0
        ≡ take max (found ++ buses_from registers left bus)
  unfolding scan_buses
  buses_lem zero bus found b h = rw (append-nil found) (sym (take-all max found h))
  buses_lem (suc left) bus found b h =
      let r = scan_devices ports 32 max bus 0 found b in
      let here = devices_from registers 32 bus 0 in
      let one = devices_lem 32 bus 0 found b h in
      buses_lem left (bus + 1) r.0 r.1 (within_lem max (found ++ here) r.0 one)
      ∙ chain_lem max found here (buses_from registers left (bus + 1)) r.0 one

  pub pci_enumerate_devices-buses_from :
      (b : ports.Bus) → (pci_enumerate_devices ports max b).0 ≡ take max (buses_from registers 8 0)
  unfolding pci_enumerate_devices
  pci_enumerate_devices-buses_from b = buses_lem 8 0 [] b (omega arith)
