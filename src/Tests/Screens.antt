-- ===== src/Tests/Screens.antt =====
-- The test screen at a concrete picture.
use nanopc_t6_kvm.Base.{ℕ, ◌≡◌, refl, arith, List, [], ◌∷◌}
use nanopc_t6_kvm.Value.{pos, negsuc}
use nanopc_t6_kvm.Screen.{Picture, Call, begin, frame, frames, rect, draw, current_on}
use nanopc_t6_kvm.Screen.Input.{Event, on_read, inputs, on_round, first_state}
use nanopc_t6_kvm.Screen.Input.Inside.{IsInside, inputs-IsInside}
use nanopc_t6_kvm.Screen.Shown.{frame_shows}

abbrev plain : Picture
plain row col = 0

abbrev square : List Call
square = record { x = pos 1; y = pos 1; w = 2; h = 2; colour = 5 } ∷ []

-- One that begins to the left of the screen.
abbrev cut_square : List Call
cut_square = record { x = negsuc 0; y = pos 0; w = 3; h = 2; colour = 7 } ∷ []

moved : (frame 8 4 cut_square (frames 8 4 (square ∷ []) (begin plain))).fb 1 1 ≡ 7
unfolding frame frames draw rect current_on
moved = refl

frame_shows_example : (frame 8 4 cut_square (frames 8 4 (square ∷ []) (begin plain))).fb 1 2 ≡ 0
frame_shows_example = frame_shows 8 4 plain (square ∷ []) cut_square 1 2

abbrev event : (typ code val : ℕ) → Event
event typ code val = record { typ = typ; code = code; val = pos val }

-- The box is taken at its middle and drawn to the edge.
abbrev drag_away : List (List (List Event))
drag_away =
    ((event 3 0 20000 ∷ event 3 1 17000 ∷ event 1 272 1 ∷ []) ∷ [])
    ∷ ((event 3 0 32767 ∷ event 3 1 0 ∷ []) ∷ [])
    ∷ []

box_drawn :
    ((inputs 1920 1080 drag_away first_state).boxx ≡ 1660)
    × ((inputs 1920 1080 drag_away first_state).boxy ≡ 250)
unfolding inputs on_round on_read
box_drawn = (refl, refl)

inputs-IsInside_example : IsInside 1920 1080 (inputs 1920 1080 drag_away first_state)
inputs-IsInside_example = inputs-IsInside 1920 1080 drag_away (omega arith) (omega arith)
