-- ===== src/Prelude/Texts.antt =====
-- Texts as lists of code points: `str(n)`, `strip`, `lower`, `startswith`, `rpartition("@")[2]`.
-- Case and white space are those of ASCII, which e-mail addresses and Drive ids are written in.
use Prim.Native.Char.{code}
use Prim.Native.Nat.{ℕ, zero, suc, ◌+◌, ◌/◌, ◌%◌}
use Prim.Native.String.{String}
use mathlib.Core.Path.{◌≡◌}
use mathlib.Core.Logic.{◌↔◌}
use mathlib.Core.Bool.{Bool, true, false, not, ◌&&◌, ◌||◌}
use mathlib.Core.List.{List, [], ◌∷◌, ◌++◌, map, reverse}
use knowledge_graph_mvp.Prelude.Tests.{ltb, leb, nat_eq, list_eq, string_eq, ◌==◌, if◌then◌else◌}
use knowledge_graph_mvp.Prelude.Sets.{contains}

abbrev pub Text : Type 0
Text = List ℕ

abbrev pub codes : String → Text
codes String.[] = []
codes (String.◌∷◌ c s) = code c ∷ codes s

-- `not text`
abbrev pub is_empty {ℓ} : {A : Type ℓ} → List A → Bool
is_empty [] = true
is_empty (x ∷ xs) = false

unfoldable pub is_space : ℕ → Bool
is_space c = (leb 9 c && leb c 13) || (leb 28 c && leb c 32)

unfoldable pub lower_char : ℕ → ℕ
lower_char c = if leb 65 c && leb c 90 then c + 32 else c

unfoldable pub lower : Text → Text
unfolding lower_char
lower = map lower_char

unfoldable pub lstrip : Text → Text
unfolding is_space
lstrip [] = []
lstrip (c ∷ cs) = if is_space c then lstrip cs else c ∷ cs

unfoldable pub strip : Text → Text
unfolding lstrip
strip cs = reverse (lstrip (reverse (lstrip cs)))

unfoldable pub starts_with : Text → Text → Bool
starts_with [] cs = true
starts_with (p ∷ ps) [] = false
starts_with (p ∷ ps) (c ∷ cs) = p == c && starts_with ps cs

-- `cs.rpartition(sep)[2]`: what follows the last `sep`, the whole text where there is none.
unfoldable pub after_last : ℕ → Text → Text
unfolding contains
after_last sep [] = []
after_last sep (c ∷ cs) =
    let rest = after_last sep cs in
    if contains cs sep then rest else if c == sep then cs else c ∷ cs

-- The digits of `n` in base ten, with `n + 1` rounds, which are enough.
unfoldable pub decimal_rounds : ℕ → ℕ → Text
decimal_rounds zero n = []
decimal_rounds (suc f) n =
    let front = decimal_rounds f (n / 10) in
    if ltb n 10 then (48 + n) ∷ [] else front ++ (48 + n % 10) ∷ []

-- `str(n)`
unfoldable pub decimal : ℕ → Text
unfolding decimal_rounds
decimal n = decimal_rounds (suc n) n

-- `x < y` on texts, and on tuples of texts.
unfoldable pub text_ltb : Text → Text → Bool
text_ltb [] [] = false
text_ltb [] (y ∷ ys) = true
text_ltb (x ∷ xs) [] = false
text_ltb (x ∷ xs) (y ∷ ys) = ltb x y || (x == y && text_ltb xs ys)

unfoldable pub texts_ltb : List Text → List Text → Bool
unfolding text_ltb
texts_ltb [] [] = false
texts_ltb [] (y ∷ ys) = true
texts_ltb (x ∷ xs) [] = false
texts_ltb (x ∷ xs) (y ∷ ys) = text_ltb x y || (x == y && texts_ltb xs ys)

-- The equality tests of texts and labels, for `ground`, which wants them at each pair.
pub text_eq_iff : (a b : Text) → ((a == b) ≡ true) ↔ (a ≡ b)
text_eq_iff a b = list_eq.beq_iff a b

pub label_eq_iff : (a b : String) → ((a == b) ≡ true) ↔ (a ≡ b)
label_eq_iff a b = string_eq.beq_iff a b

-- `sep.join(parts)`
unfoldable pub join : Text → List Text → Text
join sep [] = []
join sep (p ∷ []) = p
join sep (p ∷ q ∷ ps) = p ++ (sep ++ join sep (q ∷ ps))

-- `text.split()`, `word` being the letters of the word that is being read.
unfoldable pub words_from : Text → Text → List Text
unfolding is_space
words_from word [] = if is_empty word then [] else word ∷ []
words_from word (c ∷ cs) =
    let rest = words_from (if is_space c then [] else word ++ c ∷ []) cs in
    if is_space c && not (is_empty word) then word ∷ rest else rest

unfoldable pub words : Text → List Text
unfolding words_from
words = words_from []

-- `text.replace(old, new)` for single characters.
unfoldable pub replace_char : ℕ → ℕ → Text → Text
replace_char old new = map (λ c. if c == old then new else c)

hex_digit : ℕ → ℕ
hex_digit d = if ltb d 10 then 48 + d else 87 + d

-- The escapes of `json.dumps(..., ensure_ascii=False)`.
json_char : ℕ → Text
unfolding hex_digit
json_char c =
    if c == b'"'
    then codes "\\\""
    else if c == 92
    then 92 ∷ 92 ∷ []
    else if c == 8
    then codes "\\b"
    else if c == 12
    then codes "\\f"
    else if c == 10
    then codes "\\n"
    else if c == 13
    then codes "\\r"
    else if c == 9
    then codes "\\t"
    else if ltb c 32
    then codes "\\u00" ++ (hex_digit (c / 16) ∷ hex_digit (c % 16) ∷ [])
    else c ∷ []

json_chars : Text → Text
unfolding json_char
json_chars [] = []
json_chars (c ∷ cs) = json_char c ++ json_chars cs

unfoldable pub json_string : Text → Text
unfolding json_chars
json_string cs = b'"' ∷ (json_chars cs ++ b'"' ∷ [])
