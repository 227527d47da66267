-- ===== src/Framing/ByteStuffing/Tests.antt =====
-- The theorems on byte stuffing at a concrete text.
use study_in_tezpur_universi.Common.{ℕ, ◌≡◌, refl, List, [], ◌∷◌, ◌++◌, none, some, arith}
use study_in_tezpur_universi.Framing.ByteStuffing.{byte_stuff, byte_unstuff}
use study_in_tezpur_universi.Framing.ByteStuffing.RoundTrip.{
  IsString, byte_unstuff-byte_stuff, byte_unstuff-overrun,
}

-- "AFEB".
abbrev flagged : List ℕ
flagged = b'A' ∷ b'F' ∷ b'E' ∷ b'B' ∷ []

stuffs_flag : byte_stuff flagged b'F' b'E' ≡ b'A' ∷ b'E' ∷ b'F' ∷ b'E' ∷ b'E' ∷ b'B' ∷ []
unfolding byte_stuff
stuffs_flag = refl

flagged-IsString : IsString flagged
flagged-IsString = (omega arith, (omega arith, (omega arith, (omega arith, tt))))

byte_unstuff-byte_stuff_example : byte_unstuff (byte_stuff flagged b'F' b'E') b'E' ≡ some flagged
byte_unstuff-byte_stuff_example =
    byte_unstuff-byte_stuff flagged b'F' b'E' flagged-IsString (omega arith)

byte_unstuff-overrun_example : byte_unstuff (byte_stuff flagged b'F' b'E' ++ b'E' ∷ []) b'E' ≡ none
byte_unstuff-overrun_example = byte_unstuff-overrun flagged b'F' b'E' flagged-IsString (omega arith)

-- With the NUL as its escape the stuffed text ends in front of the flag.
nul_escape : byte_unstuff (byte_stuff (b'F' ∷ []) b'F' 0) 0 ≡ some []
unfolding byte_stuff byte_unstuff
nul_escape = refl
