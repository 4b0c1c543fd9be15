-- ===== src/Agent/Content.antt =====
-- services/ai-agent/agent_loop.py: `_bounded_tool_content`, which cuts the middle out of a long tool
-- result. A text is the list of its characters; the serialisation of the result is the argument.
use cartesi_release_validati.Prelude.{
  ℕ, ◌-◌, ◌*◌, ◌/◌, ◌≤◌, ◌<◌, ◌≡◌, inl, inr, List, ◌++◌, arith, if◌then◌else◌, leb, ◌==◌, leb→le,
  Bool-cases, length, take, drop, length-append, length-take, length-drop,
}

-- MODEL_TOOL_RESULT_MAX_CHARS, if the environment does not set it.
abbrev pub default_max_chars : ℕ
default_max_chars = 5000

-- `s[-n:]`, which is all of s for n = 0.
unfoldable pub last_chars : ℕ → List ℕ → List ℕ
last_chars n s = if n == 0 then s else drop (length s - n) s

-- `_bounded_tool_content` of the serialised result s. `marker` is the text that says how many characters
-- are omitted.
unfoldable pub bounded_tool_content : ℕ → (ℕ → List ℕ) → List ℕ → List ℕ
unfolding last_chars
bounded_tool_content max_chars marker s =
    if leb (length s) max_chars
    then s
    else (let head = max_chars * 7 / 10 in
        let tail = max_chars * 2 / 10 in
        let omitted = length s - head - tail in
        take head s ++ (marker omitted ++ last_chars tail s))

last_chars-length : (n : ℕ) (s : List ℕ) → 0 < n → n ≤ length s → length (last_chars n s) ≡ n
unfolding last_chars
last_chars-length n s pos le = ground (arith, length-drop (length s - n) s)

shaped-length :
    (m : ℕ) (marker s : List ℕ)
    → 5 ≤ m
    → m < length s
    → length marker ≤ m / 10
    → length (take (m * 7 / 10) s ++ (marker ++ last_chars (m * 2 / 10) s)) ≤ m
shaped-length m marker s large long short =
    let whole = length-append (take (m * 7 / 10) s) (marker ++ last_chars (m * 2 / 10) s) in
    let rest = length-append marker (last_chars (m * 2 / 10) s) in
    let head = length-take (m * 7 / 10) s in
    let tail = last_chars-length (m * 2 / 10) s (omega arith) (omega arith) in omega arith

-- If the limit is at least 5 and the marker takes at most a tenth of it, the tool result that the
-- model gets is no longer than the limit.
pub bounded_tool_content-length :
    (max_chars : ℕ) (marker : ℕ → List ℕ) (s : List ℕ)
    → 5 ≤ max_chars
    → ((omitted : ℕ) → length (marker omitted) ≤ max_chars / 10)
    → length (bounded_tool_content max_chars marker s) ≤ max_chars
unfolding bounded_tool_content
bounded_tool_content-length max_chars marker s large short =
    elim (Bool-cases (leb (length s) max_chars)) [
      | inl fits ↦ rw fits (leb→le _ _ fits)
      | inr long ↦ rw long (shaped-length max_chars _ s large (ground arith) (short _))
    ]
