-- ===== src/Huffman/File/Decoding.antt =====
-- The decoding loop follows the codes of a text back to the text.
use study_in_tezpur_universi.Common.{
  ℕ, suc, ◌+◌, ◌≡◌, refl, ap, ◌∙◌, List, [], ◌∷◌, ◌++◌, true, false, ◌==◌, ltb, if◌then◌else◌, some,
  arith, length, length-append, append_assoc, append-nil,
}
use study_in_tezpur_universi.Huffman.BitIo.{BitReader, read_bit}
use study_in_tezpur_universi.Huffman.BitIo.Reading.{stream, read_bit-next}
use study_in_tezpur_universi.Huffman.Node.{
  HuffmanNode, null, node, create_node, is_leaf, is_null, symbol_of, is_leaf-fork,
}
use study_in_tezpur_universi.Huffman.Codes.{CodeEntry, entry_of}
use study_in_tezpur_universi.Huffman.Codes.Entries.{Leads}
use study_in_tezpur_universi.Huffman.File.{complete, left_child, right_child, decode_loop}
use study_in_tezpur_universi.Huffman.File.Payload.{code_bits, payload_bits, AllLead, Leads-node}

abbrev pub child : ℕ → HuffmanNode → HuffmanNode
child bit curr = if bit == 0 then left_child curr else right_child curr

-- A round of the loop that takes a bit and finds a node.
pub decode_loop-round :
    (fuel n bit decoded : ℕ) (root curr : HuffmanNode) (br br' : BitReader) (out : List ℕ)
    → ltb decoded n ≡ true
    → read_bit br ≡ some (bit, br')
    → is_null (child bit curr) ≡ false
    → decode_loop (suc fuel) root n br curr decoded out
      ≡ decode_loop fuel root n br'
          (if is_leaf (child bit curr) then root else child bit curr)
          (if is_leaf (child bit curr) then decoded + 1 else decoded)
          (if is_leaf (child bit curr) then out ++ symbol_of (child bit curr) ∷ [] else out)
unfolding decode_loop
decode_loop-round fuel n bit decoded root curr br br' out more got found =
    rw (more, got, decode_loop) (rw found)

Leads-inner :
    {t : HuffmanNode} {c b : ℕ} {path code : List ℕ}
    → Leads t c code
    → code ≡ b ∷ path
    → is_leaf t ≡ false
Leads-inner (Leads.arrived c freq) e = cc
Leads-inner (Leads.left_of {symbol} {freq} {left = left} {right = right} p) e =
    is_leaf-fork symbol freq left right (Leads-node p)
Leads-inner (Leads.right_of {symbol} {freq} {left = null} {right = right} p) e = rw (Leads-node p)
Leads-inner (Leads.right_of {symbol} {freq} {left = node s f l r} {right = right} p) e = refl

-- A round that finds an inner node goes on from there.
decode_loop-inner :
    (fuel n bit decoded : ℕ) (root curr next : HuffmanNode) (br br' : BitReader) (out : List ℕ)
    → child bit curr ≡ next
    → ltb decoded n ≡ true
    → read_bit br ≡ some (bit, br')
    → is_null next ≡ false
    → is_leaf next ≡ false
    → decode_loop (suc fuel) root n br curr decoded out
      ≡ decode_loop fuel root n br' next decoded out
decode_loop-inner fuel n bit decoded root curr next br br' out e more got found inner =
    decode_loop-round fuel n bit decoded root curr br br' out more got (rw e found)
    ∙ rw e (rw inner)

-- A round that finds a leaf adds its symbol and goes back to the root.
decode_loop-leaf :
    (fuel n bit decoded c freq : ℕ) (root curr : HuffmanNode) (br br' : BitReader) (out : List ℕ)
    → child bit curr ≡ create_node c freq
    → ltb decoded n ≡ true
    → read_bit br ≡ some (bit, br')
    → decode_loop (suc fuel) root n br curr decoded out
      ≡ decode_loop fuel root n br' root (decoded + 1) (out ++ c ∷ [])
decode_loop-leaf fuel n bit decoded c freq root curr br br' out e more got =
    decode_loop-round fuel n bit decoded root curr br br' out more got (rw e) ∙ rw e

-- What the loop does with one code: `k` bits give the symbol `c`.
abbrev Decoded :
    ℕ → ℕ → ℕ → ℕ → ℕ → HuffmanNode → HuffmanNode → BitReader → List ℕ → List ℕ → Type 0
Decoded k c fuel n decoded root curr br out rest =
    (br' : BitReader) × (decode_loop (k + fuel) root n br curr decoded out
      ≡ decode_loop fuel root n br' root (decoded + 1) (out ++ c ∷ []))
    × (stream br' ≡ rest)

decode_edge :
    {next : HuffmanNode} {c : ℕ} {path : List ℕ} (fuel n decoded bit : ℕ) (root curr : HuffmanNode)
    (br : BitReader) (out rest : List ℕ)
    → Leads next c path
    → child bit curr ≡ next
    → ltb decoded n ≡ true
    → stream br ≡ bit ∷ (code_bits path ++ rest)
    → Decoded (suc (length (code_bits path))) c fuel n decoded root curr br out rest
unfolding left_child right_child
decode_edge fuel n decoded bit root curr br out rest (Leads.arrived c freq) at more e =
    let (br', got, after) = read_bit-next br bit rest e in
    let one : 1 + fuel ≡ suc fuel = omega arith in
    (
      br',
      rw one (decode_loop-leaf fuel n bit decoded c freq root curr br br' out at more got),
      after,
    )
decode_edge {next} fuel n decoded bit root curr br out rest (Leads.left_of {path = path} p) at more
      e =
    let (br', got, after) = read_bit-next br bit (0 ∷ (code_bits path ++ rest)) e in
    let (br'', all, left) = decode_edge fuel n decoded 0 root next br' out rest p refl more after in
    let k = suc (length (code_bits path)) in
    let one : suc k + fuel ≡ suc (k + fuel) = omega arith in
    (
      br'',
      rw one (
          decode_loop-inner (k + fuel) n bit decoded root curr next br br' out at more got refl
            (Leads-inner {t = next} (Leads.left_of p) refl)
          ∙ all),
      left,
    )
decode_edge {next} fuel n decoded bit root curr br out rest (Leads.right_of {path = path} p) at more
      e =
    let (br', got, after) = read_bit-next br bit (1 ∷ (code_bits path ++ rest)) e in
    let (br'', all, left) = decode_edge fuel n decoded 1 root next br' out rest p refl more after in
    let k = suc (length (code_bits path)) in
    let one : suc k + fuel ≡ suc (k + fuel) = omega arith in
    (
      br'',
      rw one (
          decode_loop-inner (k + fuel) n bit decoded root curr next br br' out at more got refl
            (Leads-inner {t = next} (Leads.right_of p) refl)
          ∙ all),
      left,
    )

-- From the root, which is no leaf, the loop follows a code to its symbol.
decode_code :
    {root : HuffmanNode} {c : ℕ} {path : List ℕ} (fuel n decoded : ℕ) (br : BitReader)
    (out rest : List ℕ)
    → Leads root c path
    → is_leaf root ≡ false
    → ltb decoded n ≡ true
    → stream br ≡ code_bits path ++ rest
    → Decoded (length (code_bits path)) c fuel n decoded root root br out rest
unfolding left_child right_child
decode_code fuel n decoded br out rest (Leads.arrived c freq) inner more e = absurd (cc)
decode_code {root} fuel n decoded br out rest (Leads.left_of p) inner more e =
    decode_edge fuel n decoded 0 root root br out rest p refl more e
decode_code {root} fuel n decoded br out rest (Leads.right_of p) inner more e =
    decode_edge fuel n decoded 1 root root br out rest p refl more e

-- The loop decodes the whole text, whatever bits follow it.
pub decode_loop-payload_bits :
    (spare n decoded : ℕ) (root : HuffmanNode) (table : List CodeEntry) (text : List ℕ)
    (br : BitReader) (out rest : List ℕ)
    → AllLead root table text
    → is_leaf root ≡ false
    → decoded + length text ≡ n
    → stream br ≡ payload_bits table text ++ rest
    → decode_loop (length (payload_bits table text) + suc spare) root n br root decoded out
      ≡ some (complete, out ++ text)
decode_loop-payload_bits spare n decoded root table [] br out rest lead inner size e =
    let one : 0 + suc spare ≡ suc spare = omega arith in
    let ended : ltb decoded n ≡ false = ground arith in
    rw (one, append-nil) (unfold decode_loop in rw ended)
decode_loop-payload_bits spare n decoded root table (c ∷ text) br out rest lead inner size e =
    let code = code_bits (entry_of table c).code in
    let more : ltb decoded n ≡ true = ground arith in
    let fuel = length (payload_bits table text) + suc spare in
    let split : length (code ++ payload_bits table text) + suc spare ≡ length code + fuel =
      omega (arith, length-append code (payload_bits table text)) in
    let (br', one, after) =
      decode_code fuel n decoded br out (payload_bits table text ++ rest) lead.0 inner more
        (e ∙ append_assoc code (payload_bits table text) rest) in
    let all =
      decode_loop-payload_bits spare n (decoded + 1) root table text br' (out ++ c ∷ []) rest lead.1
        inner (omega arith) after in
    rw split (one ∙ all ∙ ap (λ (t : List ℕ). some (complete, t)) (append_assoc out (c ∷ []) text))
