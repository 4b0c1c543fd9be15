-- ===== src/Text.antt =====
-- What the services use of Python's texts: `lstrip`, `split`, `int` and the `re` patterns that end in
-- their only group. A text is the list of its characters; the classes are those of ASCII.
mod Tests
pub mod Matching
use Prim.Native.Char.{Char, code}
use Prim.Native.String.{[] as nil, ◌∷◌ as ◌∷ᶜ◌}
use cartesi_release_validati.Prelude.{
  ℕ, zero, suc, ◌+◌, ◌-◌, ◌*◌, Bool, true, false, not, ◌&&◌, ◌||◌, String, Option, none, some, List,
  [], ◌∷◌, ◌++◌, if◌then◌else◌, ltb, leb, ◌==◌,
}

abbrev pub chars : String → List Char
chars nil = []
chars (c ∷ᶜ s) = c ∷ chars s

abbrev pub text : List Char → String
text [] = nil
text (c ∷ s) = c ∷ᶜ text s

-- `a or b` for values that are None or a match, and `if s:` for a text.
abbrev pub or_else {ℓ} : {A : Type ℓ} → Option A → Option A → Option A
or_else none b = b
or_else (some a) b = some a

abbrev pub is_some {ℓ} : {A : Type ℓ} → Option A → Bool
is_some none = false
is_some (some a) = true

abbrev map_option {ℓ κ} : {A : Type ℓ} {B : Type κ} → (A → B) → Option A → Option B
map_option f none = none
map_option f (some a) = some (f a)

abbrev pub is_empty : String → Bool
is_empty nil = true
is_empty (c ∷ᶜ s) = false

-- `x or None` for a text that may be empty: what the code takes as no value.
abbrev pub truthy : Option String → Option String
truthy none = none
truthy (some s) = if is_empty s then none else some s

-- `\d`, `\w` and the white space that `int` skips.
abbrev pub is_digit : Char → Bool
is_digit c = leb 48 (code c) && leb (code c) 57

abbrev pub is_word : Char → Bool
is_word c =
    is_digit c
    || (leb 65 (code c) && leb (code c) 90)
    || (leb 97 (code c) && leb (code c) 122)
    || code c == 95

abbrev pub is_space : Char → Bool
is_space c = (leb 9 (code c) && leb (code c) 13) || (leb 28 (code c) && leb (code c) 32)

-- The number of a character's lower case.
abbrev pub lower : ℕ → ℕ
lower n = if leb 65 n && leb n 90 then n + 32 else n

-- `s.lstrip(c)`, for the character with the number n.
unfoldable pub lstrip : ℕ → List Char → List Char
lstrip n [] = []
lstrip n (c ∷ s) = if code c == n then lstrip n s else c ∷ s

-- `s.split(c)[0]`.
unfoldable pub before : ℕ → List Char → List Char
before n [] = []
before n (c ∷ s) = if code c == n then [] else c ∷ before n s

-- The integers, as `int` returns them: `negsuc n` is -(n + 1).
pub data ℤ : Type 0 where
  pos negsuc : ℕ → ℤ

abbrev pub negated : ℕ → ℤ
negated zero = pos 0
negated (suc n) = negsuc n

-- Digits with single underscores between them: the value so far, and whether a digit must follow.
unfoldable pub digits : ℕ → Bool → List Char → Option ℕ
digits value needs_digit [] = if needs_digit then none else some value
digits value needs_digit (c ∷ s) =
    let rest =
      digits (if is_digit c then value * 10 + (code c - 48) else value) (not (is_digit c)) s in
    if is_digit c || (code c == 95 && not needs_digit) then rest else none

skip_space : List Char → List Char
skip_space [] = []
skip_space (c ∷ s) = if is_space c then skip_space s else c ∷ s

all_space : List Char → Bool
all_space [] = true
all_space (c ∷ s) = is_space c && all_space s

-- The text without the white space at its end.
trim_end : List Char → List Char
trim_end [] = []
trim_end (c ∷ s) = if all_space (c ∷ s) then [] else c ∷ trim_end s

-- `s.strip()`.
unfoldable pub strip : List Char → List Char
unfolding skip_space trim_end all_space
strip s = trim_end (skip_space s)

signed : List Char → Option ℤ
unfolding digits
signed [] = none
signed (c ∷ s) =
    if code c == 43
    then map_option pos (digits 0 true s)
    else (if code c == 45
        then map_option negated (digits 0 true s)
        else map_option pos (digits 0 true (c ∷ s)))

-- `int(s)`, none where it raises ValueError.
unfoldable pub int_of : List Char → Option ℤ
unfolding skip_space trim_end all_space signed
int_of s = signed (trim_end (skip_space s))

-- The patterns: a character of a class, as many as possible of a class, one after the other, the
-- first or else the second, and nothing.
pub data Pattern : Type 0 where
  one many : (Char → Bool) → Pattern
  seq either : Pattern → Pattern → Pattern
  nothing : Pattern

module _ {R : Type 0} where
  -- `p*`, the longest run first.
  abbrev pub run_of : (Char → Bool) → List Char → (List Char → List Char → Option R) → Option R
  run_of p [] k = k [] []
  run_of p (c ∷ s) k =
      if p c then or_else (run_of p s (λ u v. k (c ∷ u) v)) (k [] (c ∷ s)) else k [] (c ∷ s)

  -- Backtracking: the matches of a pattern at the beginning of a text are tried in order, each with
  -- what it took and what it left, until the rest of the search accepts one.
  abbrev pub match_at : Pattern → List Char → (List Char → List Char → Option R) → Option R
  match_at (one p) [] k = none
  match_at (one p) (c ∷ s) k = if p c then k (c ∷ []) s else none
  match_at (many p) s k = run_of p s k
  match_at (seq a b) s k = match_at a s (λ u r. match_at b r (λ v w. k (u ++ v) w))
  match_at (either a b) s k = or_else (match_at a s k) (match_at b s k)
  match_at nothing s k = k [] s

-- The group of a pattern `prefix(group)`, if it matches at the beginning of the text.
unfoldable pub group_at : Pattern → Pattern → List Char → Option (List Char)
group_at prefix group s = match_at prefix s (λ u r. match_at group r (λ v w. some v))

-- `m.group(1)` for `m = re.search(...)`: the leftmost match.
unfoldable pub search : Pattern → Pattern → List Char → Option (List Char)
search prefix group [] = group_at prefix group []
search prefix group (c ∷ s) = or_else (group_at prefix group (c ∷ s)) (search prefix group s)
