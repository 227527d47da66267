-- ===== src/Common/Chars.antt =====
-- The character classes of `<ctype.h>` in the C locale, on character codes.
use mathlib.Core.Bool.{Bool, ◌&&◌, ◌||◌}
use Prim.Native.Nat.{ℕ, ◌+◌, ◌-◌}
use study_in_tezpur_universi.Common.Tests.{leb, if◌then◌else◌}

abbrev pub is_upper : ℕ → Bool
is_upper ch = leb b'A' ch && leb ch b'Z'

abbrev pub is_lower : ℕ → Bool
is_lower ch = leb b'a' ch && leb ch b'z'

abbrev pub is_alpha : ℕ → Bool
is_alpha ch = is_upper ch || is_lower ch

abbrev pub to_upper : ℕ → ℕ
to_upper ch = if is_lower ch then ch - 32 else ch

abbrev pub to_lower : ℕ → ℕ
to_lower ch = if is_upper ch then ch + 32 else ch
