-- ===== src/Examples/Getch.antt =====
-- examples/getch/main.go: a loop over the keys that are pressed.
use tru.Base.Text.{codes}
use tru.Base.{List, [], ◌∷◌, Bool, true, Bytes, if◌then◌else◌, bytes_eq}
use tru.Terminal.{ctrl_c, ctrl_d, left}

abbrev pub right : Bytes
right = 27 ∷ 91 ∷ 67 ∷ []

-- What is printed for a key, but for its code.
unfoldable pub key_line : Bytes → Bytes
key_line c =
    if bytes_eq c ctrl_c
    then codes "Ctrl+C pressed"
    else if bytes_eq c ctrl_d
    then codes "Ctrl+D pressed"
    else if bytes_eq c left
    then codes "LEFT pressed"
    else if bytes_eq c right
    then codes "RIGHT ! pressed"
    else codes "Unknown pressed"

unfoldable pub is_break : Bytes → Bool
is_break c = if bytes_eq c ctrl_c then true else bytes_eq c ctrl_d

-- The loop, over what `getch` gives.
unfoldable pub run : List Bytes → List Bytes
run [] = []
run (c ∷ cs) = let later = run cs in key_line c ∷ (if is_break c then [] else later)
