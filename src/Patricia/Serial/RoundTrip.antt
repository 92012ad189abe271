-- ===== src/Patricia/Serial/RoundTrip.antt =====
-- Reading back the bytes of a node
-- (starkware/starkware_utils/commitment_tree/patricia_tree/nodes.py).
use pip_cairo_lang.Prelude.{
  ℕ, ◌^◌, ◌<◌, ◌≡◌, ◌≢◌, refl, ◌∙◌, arith, List, ◌++◌, length, take-++, drop-++, length-append,
}
use pip_cairo_lang.Result.{ok}
use pip_cairo_lang.Patricia.Nodes.{NodeFact}
use pip_cairo_lang.Patricia.Commitment.{binary-made, edge-made}
use pip_cairo_lang.Patricia.Serial.{big_value, serialize, deserialize}
use pip_cairo_lang.Patricia.Serial.Blocks.{big_value-bytes, blockify-three}

-- The class accepts the fact, and its numbers have their bytes.
abbrev pub IsStorable : NodeFact → Type 0
IsStorable NodeFact.empty = Unit
IsStorable (NodeFact.binary l r) = (l ≢ 0) × (r ≢ 0) × (l < 256 ^ 32) × (r < 256 ^ 32)
IsStorable (NodeFact.edge b p l) =
    (0 < l) × (p < 2 ^ l) × (b < 256 ^ 32) × (p < 256 ^ 32) × (l < 256 ^ 1)

read_binary :
    (a b : List ℕ) (l r : ℕ)
    → l ≢ 0
    → r ≢ 0
    → length a ≡ 32
    → length b ≡ 32
    → big_value a ≡ l
    → big_value b ≡ r
    → deserialize (a ++ b) ≡ ok (NodeFact.binary l r)
unfolding deserialize
read_binary a b l r hl hr ea eb va vb =
    let size : length (a ++ b) ≡ 64 = length-append a b ∙ omega arith in
    rw (size, take-++ 32 a b ea, drop-++ 32 a b ea, va, vb) (binary-made l r hl hr)

read_edge :
    (a b c : List ℕ) (bottom path len : ℕ)
    → 0 < len
    → path < 2 ^ len
    → length a ≡ 32
    → length b ≡ 32
    → length c ≡ 1
    → big_value a ≡ bottom
    → big_value b ≡ path
    → big_value c ≡ len
    → deserialize (a ++ (b ++ c)) ≡ ok (NodeFact.edge bottom path len)
unfolding deserialize
read_edge a b c bottom path len positive legal ea eb ec va vb vc =
    let size : length (a ++ (b ++ c)) ≡ 65 =
      omega (arith, length-append a (b ++ c), length-append b c) in
    rw (size, blockify-three 62 a b c ea eb ec, va, vb, vc)
      (edge-made bottom path len positive legal)

-- A fact that its class accepts, and whose numbers fit in their bytes, can be serialized, and its
-- bytes are deserialized to the fact: their number tells the class.
pub deserialize-fact :
    (fact : NodeFact)
    → IsStorable fact
    → (bytes : List ℕ) × (serialize fact ≡ ok bytes) × (deserialize bytes ≡ ok fact)
unfolding serialize deserialize
deserialize-fact NodeFact.empty h = (_, refl, refl)
deserialize-fact (NodeFact.binary l r) (hl, hr, fl, fr) =
    let (a, ea, va, na) = big_value-bytes l 32 fl in
    let (b, eb, vb, nb) = big_value-bytes r 32 fr in
    (a ++ b, rw (ea, eb) refl, read_binary a b l r hl hr na nb va vb)
deserialize-fact (NodeFact.edge bottom path len) (positive, legal, fb, fp, fl) =
    let (a, ea, va, na) = big_value-bytes bottom 32 fb in
    let (b, eb, vb, nb) = big_value-bytes path 32 fp in
    let (c, ec, vc, nc) = big_value-bytes len 1 fl in
    (
      a ++ (b ++ c),
      rw (ea, eb, ec) refl,
      read_edge a b c bottom path len positive legal na nb nc va vb vc,
    )
