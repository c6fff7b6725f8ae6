-- ===== src/Screen/Scene.antt =====
-- What a frame of tools/diagnostics/mouse_screen.py draws.
use nanopc_t6_kvm.Base.{ℕ, ◌+◌, ◌-◌, ◌%◌, Bool, ◌&&◌, List, [], ◌∷◌, ◌++◌, if◌then◌else◌}
use nanopc_t6_kvm.Base.Decimal.{decimal}
use nanopc_t6_kvm.Broker.{codes}
use nanopc_t6_kvm.Value.{ℤ, pos, negsuc}
use nanopc_t6_kvm.Screen.{Call, text, Screen, frame}
use nanopc_t6_kvm.Screen.Input.{Pointer, ◌+ℤ◌, in_box}

-- `str(z)`
abbrev pub number_text : ℤ → List ℕ
number_text (pos n) = decimal n
number_text (negsuc n) = b'-' ∷ decimal (n + 1)

abbrev pub block : (x y : ℤ) (w h colour : ℕ) → Call
block x y w h colour = record { x = x; y = y; w = w; h = h; colour = colour }

abbrev pub hovers : Pointer → Bool
hovers s = in_box 60 540 s.x && in_box 570 160 s.y

abbrev pub button_colour : Pointer → ℕ
button_colour s = if s.down && hovers s then 0xe8a23b else if hovers s then 0x236ea5 else 0x25445c

abbrev pub next_bar : (width bar : ℕ) → ℕ
next_bar width bar = (bar + 1) % (width - 119)

-- The calls of `rect` between `dirty.clear()` and `current={}`; `tenths` is the time since the start.
unfoldable pub scene : (font : ℕ → List Bool) → (tenths bar : ℕ) → Pointer → List Call
scene font tenths bar s =
    text font 60 175 4 0x55ddaa (codes "TIME " ++ decimal tenths)
    ++ (text font 60 250 4 0xe5edf9
          (codes "X " ++ (number_text s.x ++ (codes " Y " ++ number_text s.y)))
        ++ (text font 60 315 4 0xe5edf9
              (codes "LEFT " ++ (decimal s.clicks ++ (codes " RIGHT " ++ decimal s.right)))
            ++ (text font 60 380 4 0xe5edf9 (codes "WHEEL " ++ number_text s.wheel)
                ++ (text font 60 445 4 0xe5edf9
                      (codes "KEYS " ++ (decimal s.keys ++ (codes " CODE " ++ decimal s.lastkey)))
                    ++ (block (pos 60) (pos 570) 540 160 (button_colour s)
                        ∷ (text font 110 630 5 0xe5edf9 (codes "CLICK HERE")
                            ++ (block (pos s.boxx) (pos s.boxy) 260 160
                                  (if s.drag then 0xb760cf else 0x6150a5)
                                ∷ (text font (s.boxx + 20) (s.boxy + 60) 4 0xe5edf9
                                      (codes "DRAG ME")
                                    ++ (block (pos 60) (pos 850) bar 18 0x55ddaa
                                        ∷ block (s.x +ℤ negsuc 14) (s.y +ℤ negsuc 1) 31 5 0xffee33
                                        ∷ block (s.x +ℤ negsuc 1) (s.y +ℤ negsuc 14) 5 31 0xffee33
                                        ∷ [])))))))))

-- One turn of the loop, with the bar's length.
abbrev pub turn :
    (width height : ℕ) (font : ℕ → List Bool) (tenths : ℕ) → Pointer → ℕ × Screen → ℕ × Screen
turn width height font tenths s (bar, v) =
    let bar' = next_bar width bar in (bar', frame width height (scene font tenths bar' s) v)
