-- ===== src/Huffman/File/Tally.antt =====
-- Pass 1 counts each byte and the whole text.
use study_in_tezpur_universi.Common.{
  ℕ, suc, ◌+◌, ◌%◌, ◌^◌, ◌<◌, ◌≤◌, ◌≡◌, ◌∙◌, List, [], ◌∷◌, arith, length, length-set,
  length-replicate, get_or, get_or-set, get_or-replicate, set, ◌==◌, if◌then◌else◌, replicate,
  Bool-cases, inl, inr,
}
use study_in_tezpur_universi.Huffman.Codes.{num_chars}
use study_in_tezpur_universi.Huffman.File.{Counts, count_from, count_chars}

-- How often a byte occurs.
abbrev pub occurrences : ℕ → List ℕ → ℕ
occurrences c [] = 0
occurrences c (ch ∷ text) = (if ch == c then 1 else 0) + occurrences c text

abbrev pub AllBytes : List ℕ → Type 0
AllBytes [] = Unit
AllBytes (ch ∷ text) = (ch < 256) × AllBytes text

pub record Counted (text : List ℕ) (before after : Counts) : Type 0 where
  pub size : length after.freqs ≡ num_chars
  pub total : after.total_chars ≡ before.total_chars + length text
  pub each : (c : ℕ) → get_or after.freqs c 0 ≡ get_or before.freqs c 0 + occurrences c text

bump-freq :
    (freqs : List ℕ) (ch c limit : ℕ)
    → length freqs ≡ num_chars
    → ch < 256
    → get_or freqs ch 0 < limit
    → limit < 2 ^ 64
    → get_or (set freqs ch ((get_or freqs ch 0 + 1) % 2 ^ 64)) c 0
      ≡ get_or freqs c 0 + (if ch == c then 1 else 0)
bump-freq freqs ch c limit size byte below h = elim (Bool-cases (ch == c)) [
  | inl same ↦
      let e : ch ≡ c = ground arith in
      ground (arith, get_or-set freqs ch c ((get_or freqs ch 0 + 1) % 2 ^ 64) 0, e)
  | inr other ↦ ground (arith, get_or-set freqs ch c ((get_or freqs ch 0 + 1) % 2 ^ 64) 0)
]

count_from-Counted :
    (text : List ℕ) (counts : Counts)
    → AllBytes text
    → length counts.freqs ≡ num_chars
    → ((c : ℕ) → get_or counts.freqs c 0 ≤ counts.total_chars)
    → counts.total_chars + length text < 2 ^ 64
    → Counted text counts (count_from text counts)
unfolding count_from
count_from-Counted [] counts bytes size bounded fits = record {
  size = size;
  total = omega arith;
  each = λ c. omega arith;
}
count_from-Counted (ch ∷ text) counts bytes size bounded fits =
    let next : Counts = record {
      freqs = set counts.freqs ch ((get_or counts.freqs ch 0 + 1) % 2 ^ 64);
      total_chars = (counts.total_chars + 1) % 2 ^ 64;
    } in
    let bump = λ (c : ℕ).
      bump-freq counts.freqs ch c (suc counts.total_chars) size bytes.0 (omega (arith, bounded ch))
        (omega arith) in
    let more : (counts.total_chars + 1) % 2 ^ 64 ≡ counts.total_chars + 1 = omega arith in
    let rest =
      count_from-Counted text next bytes.1 (length-set counts.freqs ch _ ∙ size)
        (λ c. ground (arith, bump c, bounded c)) (omega arith) in
    record {
      size = rest.size;
      total = omega (arith, rest.total);
      each = λ c. omega (arith, rest.each c, bump c);
    }

-- For a text of bytes, shorter than 2^64, pass 1 counts the occurrences of each byte and the length
-- of the text, without wrapping around.
pub count_chars-Counted :
    (text : List ℕ)
    → AllBytes text
    → length text < 2 ^ 64
    → (length (count_chars text).freqs ≡ 256)
      × ((count_chars text).total_chars ≡ length text)
      × ((c : ℕ) → get_or (count_chars text).freqs c 0 ≡ occurrences c text)
unfolding count_chars
count_chars-Counted text bytes fits =
    let start : Counts = record { freqs = replicate num_chars 0; total_chars = 0 } in
    let counted =
      count_from-Counted text start bytes (length-replicate {A = ℕ} num_chars 0)
        (λ c. omega (arith, get_or-replicate {A = ℕ} num_chars c 0)) (omega arith) in
    (
      counted.size,
      omega (arith, counted.total),
      λ c. omega (arith, counted.each c, get_or-replicate {A = ℕ} num_chars c 0),
    )
