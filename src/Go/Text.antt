-- ===== src/Go/Text.antt =====
-- `strings.Fields` and `strings.ToUpper`, on the UTF-8 bytes of a string.
use redi_go.Prelude.{
  Bytes, Bool, true, false, ◌&&◌, ◌||◌, ℕ, zero, suc, ◌+◌, ◌-◌, ◌/◌, ◌%◌, List, [], ◌∷◌, ◌++◌, ◌≡◌,
  refl, ltb, leb, ◌==◌, if◌then◌else◌, map, codes,
}

abbrev within : ℕ → ℕ → ℕ → Bool
within lo hi c = leb lo c && leb c hi

-- Tab, line feed, vertical tab, form feed, carriage return, space.
abbrev ascii_space : ℕ → Bool
ascii_space c = within 9 13 c || c == 32

-- U+2000 to U+200A, U+2028, U+2029 and U+202F after E2 80; U+205F after E2 81; U+3000 is E3 80 80;
-- U+1680 is E1 9A 80.
wide_space : ℕ → ℕ → ℕ → Bool
wide_space a b c =
    (a == 0xe2 && b == 0x80 && (within 0x80 0x8a c || c == 0xa8 || c == 0xa9 || c == 0xaf))
    || (a == 0xe2 && b == 0x81 && c == 0x9f)
    || (a == 0xe3 && b == 0x80 && c == 0x80)
    || (a == 0xe1 && b == 0x9a && c == 0x80)

-- The number of bytes of the white space character that a text begins with; 0 if there is none.
unfoldable pub space_width : Bytes → ℕ
unfolding wide_space
space_width [] = 0
space_width (a ∷ []) = if ascii_space a then 1 else 0
space_width (a ∷ b ∷ []) =
    if ascii_space a then 1 else if a == 0xc2 && (b == 0x85 || b == 0xa0) then 2 else 0
space_width (a ∷ b ∷ c ∷ s) =
    if ascii_space a
    then 1
    else if a == 0xc2 && (b == 0x85 || b == 0xa0)
    then 2
    else if wide_space a b c
    then 3
    else 0

abbrev flush : Bytes → List Bytes → List Bytes
flush [] out = out
flush (c ∷ s) out = out ++ (c ∷ s) ∷ []

-- `skip` counts the bytes left of a white space character.
unfoldable pub fields_loop : Bytes → ℕ → Bytes → List Bytes → List Bytes
unfolding space_width
fields_loop [] skip word out = flush word out
fields_loop (c ∷ s) (suc skip) word out = fields_loop s skip word out
fields_loop (c ∷ s) zero word out = elim (space_width (c ∷ s)) [
  | zero ↦ fields_loop s 0 (word ++ c ∷ []) out
  | suc more ↦ fields_loop s more [] (flush word out)
]

-- strings.Fields(s)
unfoldable pub fields : Bytes → List Bytes
unfolding fields_loop
fields s = fields_loop s 0 [] []

-- Whether a text is white space only; `skip` counts the bytes left of a character.
unfoldable pub all_space : Bytes → ℕ → Bool
unfolding space_width
all_space [] skip = true
all_space (c ∷ s) (suc skip) = all_space s skip
all_space (c ∷ s) zero =
    let rest = all_space s (space_width (c ∷ s) - 1) in
    if space_width (c ∷ s) == 0 then false else rest

unfoldable trim_right : Bytes → Bytes
unfolding all_space
trim_right [] = []
trim_right (c ∷ s) = if all_space (c ∷ s) 0 then [] else c ∷ trim_right s

unfoldable trim_left : Bytes → ℕ → Bytes
unfolding space_width
trim_left [] skip = []
trim_left (c ∷ s) (suc skip) = trim_left s skip
trim_left (c ∷ s) zero =
    let rest = trim_left s (space_width (c ∷ s) - 1) in
    if space_width (c ∷ s) == 0 then c ∷ s else rest

-- strings.TrimSpace(s)
unfoldable pub trim_space : Bytes → Bytes
unfolding trim_left trim_right
trim_space s = trim_right (trim_left s 0)

unfoldable pub is_ascii : Bytes → Bool
is_ascii [] = true
is_ascii (c ∷ s) = ltb c 128 && is_ascii s

abbrev pub upper_byte : ℕ → ℕ
upper_byte c = if within b'a' b'z' c then c - 32 else c

-- strings.ToUpper(s). The case tables of Unicode are a parameter.
unfoldable pub to_upper : (Bytes → Bytes) → Bytes → Bytes
unfolding is_ascii
to_upper upper_unicode s = if is_ascii s then map upper_byte s else upper_unicode s

-- fmt.Sprintf("%c", b) of a byte: the UTF-8 of the code point `b`.
unfoldable pub sprint_char : ℕ → Bytes
sprint_char b = if ltb b 128 then b ∷ [] else (0xc0 + b / 64) ∷ (0x80 + b % 64) ∷ []

fields_test : fields (codes "  set  a\tb ") ≡ codes "set" ∷ codes "a" ∷ codes "b" ∷ []
unfolding fields
fields_test = refl

trim_test : trim_space (codes " \t set  a\n ") ≡ codes "set  a"
unfolding trim_space
trim_test = refl
