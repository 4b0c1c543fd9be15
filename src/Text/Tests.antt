-- ===== src/Text/Tests.antt =====
-- Runs of the functions on texts.
use cartesi_release_validati.Prelude.{◌≡◌, refl, none, some}
use cartesi_release_validati.Text.{
  chars, text, is_digit, lstrip, before, negsuc, digits, int_of, one, many, seq, search, group_at,
}

signed_int : int_of (chars " -1_0 ") ≡ some (negsuc 9)
unfolding int_of digits
signed_int = refl

no_int : int_of (chars "1__0") ≡ none
unfolding int_of digits
no_int = refl

stripped : text (before 46 (lstrip 118 (chars "vv12.5"))) ≡ "12"
unfolding before lstrip
stripped = refl

-- The run of digits gives one back to the digit that follows.
backtracks :
    search (many is_digit) (seq (one is_digit) (one is_digit)) (chars "a1234") ≡ some (chars "34")
unfolding search group_at
backtracks = refl
