-- ===== src/Framing/ByteStuffing.antt =====
-- STCN/Session1/Lab_Session_1/Exp01_Framing/byte_stuffing.c. A C string is the list of its
-- character codes before the NUL.
pub mod RoundTrip
mod Tests
use mathlib.Core.Option
use study_in_tezpur_universi.Common.{
  ℕ, suc, ◌+◌, ◌-◌, List, [], ◌∷◌, ◌++◌, Option, none, some, ◌||◌, ◌&&◌, not, ◌==◌, if◌then◌else◌,
  take, drop, length, get_or, text_eq,
}

abbrev pub default_flag : ℕ
default_flag = b'F'

abbrev pub default_esc : ℕ
default_esc = b'E'

abbrev pub max_buf : ℕ
max_buf = 1024

-- A string ends at a code 0, also where that is the escape that was inserted.
pub byte_stuff : List ℕ → ℕ → ℕ → List ℕ
byte_stuff [] flag esc = []
byte_stuff (c ∷ rest) flag esc =
    let later = byte_stuff rest flag esc in
    if c == 0
    then []
    else if c == flag || c == esc
    then (if esc == 0 then [] else esc ∷ c ∷ later)
    else c ∷ later

-- `none`: an escape stands last, and the loop runs past the NUL that it copies.
pub byte_unstuff : List ℕ → ℕ → Option (List ℕ)
byte_unstuff [] esc = some []
byte_unstuff (c ∷ []) esc = if c == 0 then some [] else if c == esc then none else some (c ∷ [])
byte_unstuff (c ∷ d ∷ rest) esc =
    let escaped = Option.map (◌∷◌ d) (byte_unstuff rest esc) in
    let plain = Option.map (◌∷◌ c) (byte_unstuff (d ∷ rest) esc) in
    if c == 0 then some [] else if c == esc then escaped else plain

-- What `main` returns: an error for wrong outer flags, a read past the end, or its report.
pub record Report : Type 0 where
  pub stuffed : List ℕ
  pub framed : List ℕ
  pub unstuffed : List ℕ
  pub status : ℕ

pub data Outcome : Type 0 where
  bad_flags overrun : Outcome
  finished : Report → Outcome

pub report : List ℕ → List ℕ → List ℕ → Option (List ℕ) → Outcome
report text stuffed framed none = overrun
report text stuffed framed (some unstuffed) = finished (record {
  stuffed = stuffed;
  framed = framed;
  unstuffed = unstuffed;
  status = if text_eq text unstuffed then 0 else 1;
})

-- The receiver of `main`: it checks the outer flags and strips them.
pub receive : List ℕ → List ℕ → List ℕ → Outcome
unfolding byte_unstuff report
receive text stuffed framed =
    let framed_len = length framed in
    let payload = take (framed_len - 2) (drop 1 framed) in
    if not (get_or framed 0 0 == default_flag)
      || not (get_or framed (framed_len - 1) 0 == default_flag)
    then bad_flags
    else report text stuffed framed (byte_unstuff payload default_esc)

-- `main` with its argument `argv[1]`.
pub main : List ℕ → Outcome
unfolding byte_stuff receive
main arg =
    let text = take (max_buf - 1) arg in
    let stuffed = byte_stuff text default_flag default_esc in
    receive text stuffed (default_flag ∷ (stuffed ++ default_flag ∷ []))
