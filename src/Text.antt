-- ===== src/Text.antt =====
-- The functions of Rust's `str` and `char` that the program uses, over texts as lists of characters.
use Prim.Native.Char.{Char, char, code}
use Prim.Native.String.{String, [], ◌∷◌}
use mathlib.Core.List.{List}
use text.Mathlib.Text.{starts_with}
use ppv_stream_rust.Prelude.{
  ◌≡◌, refl, ℕ, Bool, true, false, ◌&&◌, ◌||◌, Option, none, some, leb, nat_eq, if◌then◌else◌, ◌==◌,
}

-- `char::is_whitespace`: the Unicode property White_Space.
unfoldable pub is_whitespace : Char → Bool
is_whitespace c =
    let n = code c in
    (leb 9 n && leb n 13)
    || nat_eq n 32
    || nat_eq n 0x85
    || nat_eq n 0xa0
    || nat_eq n 0x1680
    || (leb 0x2000 n && leb n 0x200a)
    || nat_eq n 0x2028
    || nat_eq n 0x2029
    || nat_eq n 0x202f
    || nat_eq n 0x205f
    || nat_eq n 0x3000

-- `trim_start_matches` and `trim_end_matches` on a test of characters.
unfoldable pub trim_start_matches : (Char → Bool) → String → String
trim_start_matches p [] = []
trim_start_matches p (c ∷ s) = if p c then trim_start_matches p s else c ∷ s

unfoldable pub trim_end_matches : (Char → Bool) → String → String
trim_end_matches p [] = []
trim_end_matches p (c ∷ s) =
    let rest = trim_end_matches p s in if rest == "" && p c then [] else c ∷ rest

-- `str::trim`
unfoldable pub trim : String → String
unfolding is_whitespace trim_start_matches trim_end_matches
trim s = trim_end_matches is_whitespace (trim_start_matches is_whitespace s)

abbrev capitals : List (ℕ × Char)
capitals =
    List.◌∷◌ (65, char 97 tt)
      (List.◌∷◌ (66, char 98 tt)
        (List.◌∷◌ (67, char 99 tt)
          (List.◌∷◌ (68, char 100 tt)
            (List.◌∷◌ (69, char 101 tt)
              (List.◌∷◌ (70, char 102 tt)
                (List.◌∷◌ (71, char 103 tt)
                  (List.◌∷◌ (72, char 104 tt)
                    (List.◌∷◌ (73, char 105 tt)
                      (List.◌∷◌ (74, char 106 tt)
                        (List.◌∷◌ (75, char 107 tt)
                          (List.◌∷◌ (76, char 108 tt)
                            (List.◌∷◌ (77, char 109 tt)
                              (List.◌∷◌ (78, char 110 tt)
                                (List.◌∷◌ (79, char 111 tt)
                                  (List.◌∷◌ (80, char 112 tt)
                                    (List.◌∷◌ (81, char 113 tt)
                                      (List.◌∷◌ (82, char 114 tt)
                                        (List.◌∷◌ (83, char 115 tt)
                                          (List.◌∷◌ (84, char 116 tt)
                                            (List.◌∷◌ (85, char 117 tt)
                                              (List.◌∷◌ (86, char 118 tt)
                                                (List.◌∷◌ (87, char 119 tt)
                                                  (List.◌∷◌ (88, char 120 tt)
                                                    (List.◌∷◌ (89, char 121 tt)
                                                      (List.◌∷◌ (90, char 122 tt)
                                                        List.[])))))))))))))))))))))))))

lower_by : List (ℕ × Char) → Char → Char
lower_by List.[] c = c
lower_by (List.◌∷◌ (n, d) ps) c = if nat_eq (code c) n then d else lower_by ps c

-- `char::to_ascii_lowercase`
unfoldable pub lower_char : Char → Char
unfolding lower_by
lower_char c = lower_by capitals c

-- `str::to_ascii_lowercase`
unfoldable pub to_ascii_lowercase : String → String
unfolding lower_char
to_ascii_lowercase [] = []
to_ascii_lowercase (c ∷ s) = lower_char c ∷ to_ascii_lowercase s

-- The character numbered `n`, as a pattern.
abbrev pub is_char : ℕ → Char → Bool
is_char n c = nat_eq (code c) n

-- `value.chars().all(p)`
unfoldable pub all_chars : (Char → Bool) → String → Bool
all_chars p [] = true
all_chars p (c ∷ s) = p c && all_chars p s

-- `contains` on a character given by its number, and on a text
unfoldable pub contains_char : String → ℕ → Bool
contains_char [] n = false
contains_char (c ∷ s) n = nat_eq (code c) n || contains_char s n

unfoldable pub contains : String → String → Bool
contains [] t = t == ""
contains (c ∷ s) t = starts_with (c ∷ s) t || contains s t

unfoldable pub ends_with : String → String → Bool
ends_with [] t = t == ""
ends_with (c ∷ s) t = (c ∷ s) == t || ends_with s t

-- `strip_prefix`
unfoldable pub strip_prefix : String → String → Option String
strip_prefix s [] = some s
strip_prefix [] (d ∷ t) = none
strip_prefix (c ∷ s) (d ∷ t) = if nat_eq (code c) (code d) then strip_prefix s t else none

-- What stands before the first character numbered `n`, and what stands from it on (it included).
unfoldable pub before : ℕ → String → String
before n [] = []
before n (c ∷ s) = if nat_eq (code c) n then [] else c ∷ before n s

unfoldable pub from_first : ℕ → String → String
from_first n [] = []
from_first n (c ∷ s) = if nat_eq (code c) n then c ∷ s else from_first n s

-- `split` at the character numbered `n`: the first piece, and the pieces after it
unfoldable pub split_first : ℕ → String → String × List String
split_first n [] = ([], List.[])
split_first n (c ∷ s) =
    let (piece, rest) = split_first n s in
    if nat_eq (code c) n then ([], List.◌∷◌ piece rest) else (c ∷ piece, rest)

unfoldable pub split_char : ℕ → String → List String
unfolding split_first
split_char n s = let (piece, rest) = split_first n s in List.◌∷◌ piece rest

-- `split_once` at the character numbered `n`
unfoldable pub split_once : ℕ → String → Option (String × String)
split_once n [] = none
split_once n (c ∷ s) =
    let rest = split_once n s in
    if nat_eq (code c) n
    then some ([], s)
    else elim rest [ none ↦ none | some (a, b) ↦ some (c ∷ a, b) ]

trim_lower : to_ascii_lowercase (trim "  PayPal ") ≡ "paypal"
unfolding to_ascii_lowercase trim
trim_lower = refl
