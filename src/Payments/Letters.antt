-- ===== src/Payments/Letters.antt =====
-- `toUpperCase`, for the letters of ASCII, as apps/api/src/payments/payments.service.ts applies it
-- to the codes of currencies.
use chargev.Prelude.{◌-◌, ◌≡◌, refl, ◌&&◌, leb, if◌then◌else◌}
use Prim.Native.String.{String, [], ◌∷◌, char_at}
use Prim.Native.Char.{Char, code}

abbrev pub upper : Char → Char
upper c =
    if leb 97 (code c) && leb (code c) 122
    then char_at "ABCDEFGHIJKLMNOPQRSTUVWXYZ" (code c - 97)
    else c

abbrev pub upper_case : String → String
upper_case [] = []
upper_case (c ∷ s) = upper c ∷ upper_case s

swahili : upper_case "kes 1" ≡ "KES 1"
swahili = refl
