-- ===== src/Net/Tests.antt =====
-- Interfaces that are registered, and some packets through one.
use ro_dos.Prelude.{◌≡◌, refl, some, List, [], ◌∷◌, arith, take}
use ro_dos.Prelude.Int.{pos, minus_one}
use ro_dos.Net.{NetworkInterface, netif_init, netif_get_default, max_interfaces}
use ro_dos.Net.Examples.{iface_with, empty_netif}
use ro_dos.Net.Table.{Holds, register_all, register_all-Holds}
use ro_dos.Net.Traffic.{Call, Counted, send_all, send_all-Counted}

abbrev five : List NetworkInterface
five = iface_with 1 ∷ iface_with 2 ∷ iface_with 3 ∷ iface_with 4 ∷ iface_with 5 ∷ []

register_all-Holds_example :
    Holds (take max_interfaces five) (register_all five (netif_init empty_netif)).1
    × (netif_get_default (register_all five (netif_init empty_netif)).1 ≡ some (iface_with 1))
register_all-Holds_example = register_all-Holds five empty_netif refl

-- The fifth is refused.
five_answers :
    (register_all five (netif_init empty_netif)).0 ≡ pos 0 ∷ pos 0 ∷ pos 0 ∷ pos 0 ∷ minus_one ∷ []
unfolding register_all netif_init ro_dos.Net.netif_register
five_answers = refl

abbrev calls : List Call
calls =
    record { bytes = 1 ∷ 2 ∷ []; len = 2; answer = pos 0 }
    ∷ record { bytes = []; len = 0; answer = pos 0 }
    ∷ record { bytes = 7 ∷ []; len = 1; answer = minus_one }
    ∷ []

send_all-Counted_example : Counted calls (iface_with 1) (send_all calls (iface_with 1))
send_all-Counted_example =
    send_all-Counted calls (iface_with 1) refl
      (record { packets = omega arith; errors = omega arith; bytes = omega arith })
