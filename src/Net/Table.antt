-- ===== src/Net/Table.antt =====
-- What src/network_interface.c holds after interfaces were registered.
use mathlib.Core.List.{append_assoc, append-nil}
use native.Mathlib.Numerals.{add-one}
use ro_dos.Prelude.{
  ℕ, zero, suc, ◌≤◌, ◌<◌, ◌≡◌, refl, sym, ap, ◌∙◌, inl, inr, false, Option, none, some, List, [],
  ◌∷◌, ◌++◌, arith, leb, ◌==◌, if◌then◌else◌, leb→le, Bool-cases, length, get_elem?, set, take,
  length-set, length-take, length-map, take-all,
}
use ro_dos.Prelude.Int.{ℤ, minus_one}
use ro_dos.Net.{
  Netif, NetworkInterface, netif_init, netif_register, netif_get_default, max_interfaces,
}
use ro_dos.Array.Slots.{get_elem?-take, take-set_end}

-- Registers one after the other, with the results.
unfoldable pub register_all : List NetworkInterface → Netif → List ℤ × Netif
register_all [] t = ([], t)
register_all (iface ∷ ifaces) t =
    let r = netif_register iface t in let rest = register_all ifaces r.1 in (r.0 ∷ rest.0, rest.1)

-- The table holds a list of interfaces, the first of which is the default.
pub record Holds (ifaces : List NetworkInterface) (t : Netif) : Type 0 where
  pub room : length t.interfaces ≡ max_interfaces
  pub few : t.num_interfaces ≤ max_interfaces
  pub live : take t.num_interfaces t.interfaces ≡ ifaces
  pub first : t.default_interface ≡ (if t.num_interfaces == 0 then none else some 0)

pub init-Holds : (t : Netif) → length t.interfaces ≡ max_interfaces → Holds [] (netif_init t)
unfolding netif_init
init-Holds t h = record {
  room = length-map t.interfaces _ ∙ h;
  few = omega arith;
  live = refl;
  first = refl;
}

default_lem :
    (n : ℕ) (d : Option ℕ)
    → d ≡ (if n == 0 then none else some 0)
    → (elim d [ none ↦ some n | some i ↦ some i ]) ≡ some 0
default_lem n none e = ground arith
default_lem n (some i) e = ground arith

register-Holds :
    (iface : NetworkInterface) (ifaces : List NetworkInterface) (t : Netif)
    → Holds ifaces t
    → t.num_interfaces < max_interfaces
    → Holds (ifaces ++ (iface ∷ [])) (netif_register iface t).1
unfolding netif_register
register-Holds iface ifaces t v h =
    let e : leb max_interfaces t.num_interfaces ≡ false = ground arith in
    rw e (record {
      room = length-set t.interfaces t.num_interfaces iface ∙ v.room;
      few = omega arith;
      live =
          ap (λ n. take n (set t.interfaces t.num_interfaces iface)) (add-one t.num_interfaces)
          ∙ take-set_end t.interfaces t.num_interfaces iface (omega (arith, v.room))
          ∙ ap (λ l. l ++ (iface ∷ [])) v.live;
      first = default_lem t.num_interfaces t.default_interface v.first ∙ ground arith;
    })

-- The table has as many interfaces as it counts.
length-live :
    (ifaces : List NetworkInterface) (t : Netif) → Holds ifaces t → length ifaces ≡ t.num_interfaces
length-live ifaces t v =
    rw⁻¹ v.live (omega (arith, length-take t.num_interfaces t.interfaces, v.room, v.few))

full_lem :
    (iface : NetworkInterface) (t : Netif)
    → max_interfaces ≤ t.num_interfaces
    → netif_register iface t ≡ (minus_one, t)
unfolding netif_register
full_lem iface t h = ground arith

-- A list that is cut at its length or before.
take-beyond :
    (n : ℕ) (xs ys zs : List NetworkInterface)
    → n ≤ length xs
    → take n (xs ++ ys) ≡ take n (xs ++ zs)
take-beyond zero xs ys zs h = refl
take-beyond (suc n) [] ys zs h = absurd (omega arith)
take-beyond (suc n) (x ∷ xs) ys zs h = ap (λ l. x ∷ l) (take-beyond n xs ys zs (omega arith))

all-Holds :
    (more ifaces : List NetworkInterface) (t : Netif)
    → Holds ifaces t
    → Holds (take max_interfaces (ifaces ++ more)) (register_all more t).1
unfolding register_all
all-Holds [] ifaces t v =
    rw (append-nil ifaces, take-all 4 ifaces (omega (arith, length-live ifaces t v, v.few))) v
all-Holds (x ∷ more) ifaces t v = elim (Bool-cases (leb max_interfaces t.num_interfaces)) [
  | inl full ↦
      rw
        (
          full_lem x t (ground arith),
          take-beyond max_interfaces ifaces (x ∷ more) more
              (omega (arith, length-live ifaces t v, leb→le 4 t.num_interfaces full)),
        )
        (all-Holds more ifaces t v)
  | inr room ↦
      mathlib.Core.Path.subst
        (λ l. Holds (take max_interfaces l) (register_all more (netif_register x t).1).1)
        (append_assoc ifaces (x ∷ []) more)
        (all-Holds more (ifaces ++ (x ∷ [])) (netif_register x t).1
          (register-Holds x ifaces t v (ground arith)))
]

-- After `netif_init`, however many interfaces are registered, the table holds the first four of them in
-- order, and the default interface is the first.
pub register_all-Holds :
    (ifaces : List NetworkInterface) (t : Netif)
    → length t.interfaces ≡ max_interfaces
    → Holds (take max_interfaces ifaces) (register_all ifaces (netif_init t)).1
      × (netif_get_default (register_all ifaces (netif_init t)).1 ≡ get_elem? ifaces 0)
unfolding netif_get_default
register_all-Holds ifaces t h =
    let v = all-Holds ifaces [] (netif_init t) (init-Holds t h) in
    (v, default_of ifaces (register_all ifaces (netif_init t)).1 v)
  where
    default_of :
        (l : List NetworkInterface) (u : Netif)
        → Holds (take max_interfaces l) u
        → netif_get_default u ≡ get_elem? l 0
    default_of [] u w =
        let none_yet : u.num_interfaces ≡ 0 = sym (length-live [] u w) in
        let d : u.default_interface ≡ none = w.first ∙ ground arith in
        ap (λ d. elim d [ none ↦ none | some i ↦ get_elem? u.interfaces i ]) d
    default_of (x ∷ l) u w =
        let some_now : 0 < u.num_interfaces =
          omega (arith, length-live (take max_interfaces (x ∷ l)) u w) in
        let d : u.default_interface ≡ some 0 = w.first ∙ ground arith in
        ap (λ d. elim d [ none ↦ none | some i ↦ get_elem? u.interfaces i ]) d
        ∙ sym (get_elem?-take u.interfaces u.num_interfaces 0 some_now)
        ∙ ap (λ m. get_elem? m 0) w.live
