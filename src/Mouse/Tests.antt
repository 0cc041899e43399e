-- ===== src/Mouse/Tests.antt =====
-- A mouse that moves to the left edge.
use ro_dos.Prelude.{◌≡◌, refl, true, false, List, [], ◌∷◌}
use ro_dos.Prelude.Int.{pos}
use ro_dos.Mouse.{Mouse, mouse_start, mouse_poll, mouse_init}
use ro_dos.Mouse.Bounds.{IsOnScreen, mouse_poll-IsOnScreen, init-IsOnScreen}
use ro_dos.Mouse.Packets.{mouse_poll-packets, Packet, bytes_of, pointer, moved_by}

start-IsOnScreen : IsOnScreen mouse_start
start-IsOnScreen = record { within_w = (refl, refl); within_h = (refl, refl) }

abbrev ready : Mouse
ready = (mouse_init (pos 640) (pos 480) mouse_start).1

ready-IsOnScreen : IsOnScreen ready
ready-IsOnScreen = init-IsOnScreen (pos 640) (pos 480) mouse_start start-IsOnScreen

mouse_poll-IsOnScreen_example :
    IsOnScreen
      (mouse_poll (9 ∷ 0x81 ∷ 5 ∷ 0x4A ∷ []) (record mouse_start { mouse_initialized = true }))
mouse_poll-IsOnScreen_example =
    mouse_poll-IsOnScreen (9 ∷ 0x81 ∷ 5 ∷ 0x4A ∷ [])
      (record mouse_start { mouse_initialized = true })
      (record { within_w = (refl, refl); within_h = (refl, refl) })

abbrev packets : List Packet
packets =
    record { noise = 0 ∷ 0x47 ∷ []; status = 9; right = 0x81; up = 5 }
    ∷ record { noise = []; status = 0x4A; right = 3; up = 0xFE }
    ∷ []

abbrev woken : Mouse
woken = record mouse_start { mouse_initialized = true }

mouse_poll-packets_example :
    pointer (mouse_poll (bytes_of packets) woken)
    ≡ moved_by (pos 320) (pos 200) packets (pointer woken)
mouse_poll-packets_example =
    mouse_poll-packets packets woken (((refl, (refl, tt)), refl), ((tt, refl), tt)) (refl, refl)
      refl

-- The pointer itself: 160 - 127, and 100 - 5 + 2.
woken_run :
    moved_by (pos 320) (pos 200) packets (pointer woken)
    ≡ record { x = pos 33; y = pos 97; left = false; right = true }
unfolding ro_dos.Mouse.clamp
woken_run = refl
