-- ===== src/Config/Readers.antt =====
-- Readers of hexadecimal texts, as the library's `stoul` and `sscanf` read what the program prints.
use uriscv.Prelude.{
  ℕ, zero, suc, ◌+◌, ◌-◌, ◌*◌, ◌/◌, ◌%◌, ◌^◌, ◌<◌, ◌≡◌, refl, sym, ◌∙◌, ap, List, [], ◌∷◌, ◌++◌,
  Option, some, ltb, if◌then◌else◌, arith,
}
use uriscv.Stop.Order.{All}
use uriscv.Json.{Bytes}
use uriscv.Config.{hex_digit, hex_digits, mac_id_to_string}
use uriscv.Config.Devices.{IsMacId}

digit_value : ℕ → ℕ
digit_value c = if ltb c 58 then c - 48 else c - 87

digit_value-hex_digit : (d : ℕ) → d < 16 → digit_value (hex_digit d) ≡ d
unfolding digit_value
digit_value-hex_digit d h = ground (arith, h)

read_hex : ℕ → Bytes → ℕ
read_hex acc [] = acc
read_hex acc (c ∷ cs) = read_hex (acc * 16 + digit_value c) cs

unfoldable pub stoul : Bytes → Option ℕ
unfolding read_hex digit_value
stoul cs = some (read_hex 0 cs)

read_hex-snoc :
    (acc : ℕ) (cs : Bytes) (c : ℕ)
    → read_hex acc (cs ++ (c ∷ [])) ≡ read_hex acc cs * 16 + digit_value c
unfolding read_hex
read_hex-snoc acc [] c = refl
read_hex-snoc acc (d ∷ cs) c = read_hex-snoc (acc * 16 + digit_value d) cs c

-- A number of at most so many digits.
abbrev Short : ℕ → ℕ → Type 0
Short zero w = w ≡ 0
Short (suc n) w = Short n (w / 16)

read_hex-hex_digits : (n w : ℕ) → Short n w → read_hex 0 (hex_digits n w) ≡ w
unfolding read_hex hex_digits
read_hex-hex_digits zero w h = sym h
read_hex-hex_digits (suc n) w h =
    read_hex-snoc 0 (hex_digits n (w / 16)) (hex_digit (w % 16))
    ∙ omega (arith, read_hex-hex_digits n (w / 16) h, digit_value-hex_digit (w % 16) (omega arith))

pub stoul-hex_digits : (w : ℕ) → w < 2 ^ 32 → stoul (hex_digits 8 w) ≡ some w
unfolding stoul
stoul-hex_digits w h = ap some (read_hex-hex_digits 8 w (omega (arith, h)))

-- Groups of two digits with a character between them.
groups : Bytes → List ℕ
groups [] = []
groups (a ∷ []) = []
groups (a ∷ b ∷ []) = (digit_value a * 16 + digit_value b) ∷ []
groups (a ∷ b ∷ c ∷ cs) = (digit_value a * 16 + digit_value b) ∷ groups cs

unfoldable pub scan_groups : Bytes → Option (List ℕ)
unfolding groups digit_value
scan_groups cs = some (groups cs)

two_digits :
    (b : ℕ)
    → b < 256
    → digit_value (hex_digit (b / 16 % 16)) * 16 + digit_value (hex_digit (b % 16)) ≡ b
two_digits b h = omega (
  arith,
  h,
  digit_value-hex_digit (b / 16 % 16) (omega arith),
  digit_value-hex_digit (b % 16) (omega arith),
)

groups-mac_id_to_string : (id : Bytes) → All (λ c. c < 256) id → groups (mac_id_to_string id) ≡ id
unfolding groups mac_id_to_string hex_digits
groups-mac_id_to_string [] h = refl
groups-mac_id_to_string (b ∷ []) (h, hs) = ap (λ x. x ∷ []) (two_digits b h)
groups-mac_id_to_string (b ∷ c ∷ bs) (h, hs) =
    ap (λ x. x ∷ groups (mac_id_to_string (c ∷ bs))) (two_digits b h)
    ∙ ap (λ x. b ∷ x) (groups-mac_id_to_string (c ∷ bs) hs)

pub scan_groups-mac_id_to_string :
    (id : Bytes) → IsMacId id → scan_groups (mac_id_to_string id) ≡ some id
unfolding scan_groups
scan_groups-mac_id_to_string [] h = absurd h
scan_groups-mac_id_to_string (b ∷ bs) (even, six, bytes) =
    ap some (groups-mac_id_to_string (b ∷ bs) bytes)
