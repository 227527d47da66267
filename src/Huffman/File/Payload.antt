-- ===== src/Huffman/File/Payload.antt =====
-- The payload: the codes of the text, which the decoding loop follows back to the text.
use study_in_tezpur_universi.Common.{
  ℕ, ◌-◌, ◌≡◌, refl, sym, ◌∙◌, List, [], ◌∷◌, ◌++◌, false, arith, append_assoc, append-nil,
}
use study_in_tezpur_universi.Huffman.BitIo.{BitWriter, write_bit}
use study_in_tezpur_universi.Huffman.BitIo.Writing.{written, IsReady, write_bit_lem}
use study_in_tezpur_universi.Huffman.Node.{HuffmanNode, is_null, IsFull, IsFull-node, is_leaf-fork}
use study_in_tezpur_universi.Huffman.Codes.{CodeEntry, entry_of}
use study_in_tezpur_universi.Huffman.Codes.Entries.{Leads}
use study_in_tezpur_universi.Huffman.Header.RoundTrip.{stored}
use study_in_tezpur_universi.Huffman.File.{write_code, write_payload}

abbrev pub code_bits : List ℕ → List ℕ
code_bits [] = []
code_bits (c ∷ code) = (c - b'0') ∷ code_bits code

-- The bits of a text under a table.
abbrev pub payload_bits : List CodeEntry → List ℕ → List ℕ
payload_bits table [] = []
payload_bits table (c ∷ text) = code_bits (entry_of table c).code ++ payload_bits table text

-- Each byte of the text has a code that leads to it.
abbrev pub AllLead : HuffmanNode → List CodeEntry → List ℕ → Type 0
AllLead root table [] = Unit
AllLead root table (c ∷ text) = Leads root c (entry_of table c).code × AllLead root table text

write_code_lem :
    {t : HuffmanNode} {c : ℕ} {code : List ℕ} (bw : BitWriter)
    → Leads t c code
    → IsReady bw
    → IsReady (write_code code bw) × (written (write_code code bw) ≡ written bw ++ code_bits code)
unfolding write_code
write_code_lem bw (Leads.arrived c freq) ready = (ready, sym (append-nil _))
write_code_lem bw (Leads.left_of {path = path} l) ready =
    let (ready', one) = write_bit_lem bw 0 ready (omega arith) in
    let (ready'', all) = write_code_lem (write_bit bw 0) l ready' in
    (ready'', all ∙ rw (one, append_assoc (written bw) (0 ∷ []) (code_bits path)))
write_code_lem bw (Leads.right_of {path = path} l) ready =
    let (ready', one) = write_bit_lem bw 1 ready (omega arith) in
    let (ready'', all) = write_code_lem (write_bit bw 1) l ready' in
    (ready'', all ∙ rw (one, append_assoc (written bw) (1 ∷ []) (code_bits path)))

-- Pass 2 writes the codes of the text, one after the other.
pub write_payload_lem :
    (root : HuffmanNode) (table : List CodeEntry) (text : List ℕ) (bw : BitWriter)
    → AllLead root table text
    → IsReady bw
    → IsReady (write_payload table text bw)
      × (written (write_payload table text bw) ≡ written bw ++ payload_bits table text)
unfolding write_payload
write_payload_lem root table [] bw lead ready = (ready, sym (append-nil _))
write_payload_lem root table (c ∷ text) bw lead ready =
    let code = (entry_of table c).code in
    let (ready', one) = write_code_lem bw lead.0 ready in
    let (ready'', all) = write_payload_lem root table text (write_code code bw) lead.1 ready' in
    (ready'', all ∙ rw (one, append_assoc (written bw) (code_bits code) (payload_bits table text)))

pub Leads-node : {t : HuffmanNode} {c : ℕ} {path : List ℕ} → Leads t c path → is_null t ≡ false
Leads-node (Leads.arrived c freq) = refl
Leads-node (Leads.left_of l) = refl
Leads-node (Leads.right_of l) = refl

-- The tree in the header has the paths of the tree that was stored.
pub stored-Leads :
    {t : HuffmanNode} {c : ℕ} {path : List ℕ} → IsFull t → Leads t c path → Leads (stored t) c path
stored-Leads full (Leads.arrived c freq) = Leads.arrived c 0
stored-Leads (IsFull.fork symbol freq {left} {right} l r) (Leads.left_of p) =
    rw (is_leaf-fork symbol freq left right (IsFull-node l)) (Leads.left_of (stored-Leads l p))
stored-Leads (IsFull.fork symbol freq {left} {right} l r) (Leads.right_of p) =
    rw (is_leaf-fork symbol freq left right (IsFull-node l)) (Leads.right_of (stored-Leads r p))
stored-Leads (IsFull.leaf symbol freq small) (Leads.left_of p) = let e = Leads-node p in cc
stored-Leads (IsFull.leaf symbol freq small) (Leads.right_of p) = let e = Leads-node p in cc
