-- ===== src/Framing/ByteStuffing/RoundTrip.antt =====
-- byte_stuffing.c: the sender and the receiver together, and main.
use mathlib.Core.Option
use study_in_tezpur_universi.Common.{
  ℕ, suc, ◌+◌, ◌-◌, ◌*◌, ◌≤◌, ◌<◌, ◌≡◌, ◌≢◌, refl, ap, List, [], ◌∷◌, ◌++◌, none, some, true, false,
  if◌then◌else◌, ◌==◌, ◌||◌, length, length-append, take, get_or, arith, Bool-cases, inl, inr,
  take-length, text_eq_self,
}
use study_in_tezpur_universi.Framing.ByteStuffing.{
  byte_stuff, byte_unstuff, report, receive, main, finished, max_buf, default_flag, default_esc,
}

-- The codes of a C string: there is no NUL among them.
abbrev pub IsString : List ℕ → Type 0
IsString [] = Unit
IsString (c ∷ text) = (c ≢ 0) × IsString text

unstuff-escaped :
    (c esc : ℕ) (rest : List ℕ)
    → esc ≢ 0
    → byte_unstuff (esc ∷ c ∷ rest) esc ≡ Option.map (◌∷◌ c) (byte_unstuff rest esc)
unfolding byte_unstuff
unstuff-escaped c esc rest real =
    let not_nul : (esc == 0) ≡ false = ground arith in
    let self : (esc == esc) ≡ true = ground arith in rw (not_nul, self) refl

unstuff-plain :
    (c esc : ℕ) (rest : List ℕ)
    → c ≢ 0
    → (c == esc) ≡ false
    → byte_unstuff (c ∷ rest) esc ≡ Option.map (◌∷◌ c) (byte_unstuff rest esc)
unfolding byte_unstuff
unstuff-plain c esc [] real h = let not_nul : (c == 0) ≡ false = ground arith in rw (not_nul, h)
unstuff-plain c esc (d ∷ rest) real h =
    let not_nul : (c == 0) ≡ false = ground arith in rw (not_nul, h)

-- What is sent for a character that is no NUL, with an escape that is none.
stuff-next :
    (c flag esc : ℕ) (rest : List ℕ)
    → c ≢ 0
    → esc ≢ 0
    → byte_stuff (c ∷ rest) flag esc ≡ (
        if c == flag || c == esc
        then esc ∷ c ∷ byte_stuff rest flag esc
        else c ∷ byte_stuff rest flag esc)
unfolding byte_stuff
stuff-next c flag esc rest c_real esc_real =
    let c_kept : (c == 0) ≡ false = ground arith in
    let esc_kept : (esc == 0) ≡ false = ground arith in rw (c_kept, esc_kept) refl

-- Unstuffing undoes stuffing and does not run past the end, for every text without a NUL, every flag
-- and every escape but the NUL.
pub byte_unstuff-byte_stuff :
    (text : List ℕ) (flag esc : ℕ)
    → IsString text
    → esc ≢ 0
    → byte_unstuff (byte_stuff text flag esc) esc ≡ some text
byte_unstuff-byte_stuff [] flag esc string real = unfold byte_stuff byte_unstuff in refl
byte_unstuff-byte_stuff (c ∷ rest) flag esc string real =
    let next = stuff-next c flag esc rest string.0 real in
    elim (Bool-cases (c == flag || c == esc)) [
      | inl special ↦ rw (
        next,
        special,
        unstuff-escaped c esc (byte_stuff rest flag esc) real,
        byte_unstuff-byte_stuff rest flag esc string.1 real,
      )
      | inr other ↦ rw (
        next,
        other,
        unstuff-plain c esc (byte_stuff rest flag esc) string.0 (ground arith),
        byte_unstuff-byte_stuff rest flag esc string.1 real,
      )
    ]

get_or-last : (xs : List ℕ) (x d : ℕ) → get_or (xs ++ x ∷ []) (length xs) d ≡ x
get_or-last [] x d = refl
get_or-last (y ∷ xs) x d = get_or-last xs x d

take-append : (xs ys : List ℕ) → take (length xs) (xs ++ ys) ≡ xs
take-append [] ys = refl
take-append (x ∷ xs) ys = ap (◌∷◌ x) (take-append xs ys)

-- On a text without a NUL that fits its buffer, `main` sends the stuffed text between two flags, finds both
-- flags, recovers the text and reports success.
pub main_success :
    (arg : List ℕ)
    → length arg < max_buf
    → IsString arg
    → main arg
      ≡ finished (record {
        stuffed = byte_stuff arg default_flag default_esc;
        framed = default_flag ∷ (byte_stuff arg default_flag default_esc ++ default_flag ∷ []);
        unstuffed = arg;
        status = 0;
      })
unfolding main receive report
main_success arg short string =
    let s = byte_stuff arg default_flag default_esc in
    let size : length (s ++ default_flag ∷ []) ≡ length s + 1 =
      length-append s (default_flag ∷ []) in
    let inner : suc (length (s ++ default_flag ∷ [])) - 2 ≡ length s = omega arith in
    let outer : suc (length (s ++ default_flag ∷ [])) - 1 ≡ suc (length s) = omega arith in
    rw (
      take-length (max_buf - 1) arg (omega arith),
      inner,
      outer,
      get_or-last s default_flag 0,
      take-append s (default_flag ∷ []),
      byte_unstuff-byte_stuff arg default_flag default_esc string (omega arith),
      text_eq_self arg,
    )

-- The text is at most doubled, so that the payload and its NUL fit `stuffed[MAX_BUF * 2]`.
pub length-byte_stuff :
    (text : List ℕ) (flag esc : ℕ) → length (byte_stuff text flag esc) ≤ 2 * length text
unfolding byte_stuff
length-byte_stuff [] flag esc = omega arith
length-byte_stuff (c ∷ rest) flag esc = ground (arith, length-byte_stuff rest flag esc)

-- On a stuffed text behind which one more escape stands, the receiver runs past the end, for every
-- text without a NUL, every flag and every escape but the NUL.
pub byte_unstuff-overrun :
    (text : List ℕ) (flag esc : ℕ)
    → IsString text
    → esc ≢ 0
    → byte_unstuff (byte_stuff text flag esc ++ esc ∷ []) esc ≡ none
byte_unstuff-overrun [] flag esc string real =
    let not_nul : (esc == 0) ≡ false = ground arith in
    unfold byte_stuff byte_unstuff in rw not_nul (ground arith)
byte_unstuff-overrun (c ∷ rest) flag esc string real =
    let next = stuff-next c flag esc rest string.0 real in
    elim (Bool-cases (c == flag || c == esc)) [
      | inl special ↦ rw (
        next,
        special,
        unstuff-escaped c esc (byte_stuff rest flag esc ++ esc ∷ []) real,
        byte_unstuff-overrun rest flag esc string.1 real,
      )
      | inr other ↦ rw (
        next,
        other,
        unstuff-plain c esc (byte_stuff rest flag esc ++ esc ∷ []) string.0 (ground arith),
        byte_unstuff-overrun rest flag esc string.1 real,
      )
    ]
