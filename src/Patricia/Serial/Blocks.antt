-- ===== src/Patricia/Serial/Blocks.antt =====
-- Bytes of a number and blocks of bytes, for the nodes of
-- starkware/starkware_utils/commitment_tree/patricia_tree/nodes.py.
use mathlib.Core.List.{reverse, reverse-reverse}
use pip_cairo_lang.Prelude.{
  ℕ, zero, suc, ◌^◌, ◌<◌, ◌≡◌, refl, ap, ◌∙◌, arith, lt→ltb, List, [], ◌∷◌, ◌++◌, length, take-++,
  drop-++, length-reverse,
}
use pip_cairo_lang.Result.{ok}
use pip_cairo_lang.Relocatable.Bytes.{little_bytes, little_value, int_to_bytes, int_from_bytes}
use pip_cairo_lang.Relocatable.ByteLaws.{length-little_bytes, little_value-bytes}
use pip_cairo_lang.Patricia.Serial.{big_bytes, big_value, blockify}

-- The bytes of a number, read back.
pub big_value-bytes :
    (x n : ℕ)
    → x < 256 ^ n
    → (bytes : List ℕ) × (big_bytes x n ≡ ok bytes) × (big_value bytes ≡ x) × (length bytes ≡ n)
unfolding int_to_bytes int_from_bytes
big_value-bytes x n fits = (
  reverse (little_bytes n x),
  rw (lt→ltb x (256 ^ n) fits) refl,
  ap little_value (reverse-reverse (little_bytes n x)) ∙ little_value-bytes n x fits,
  length-reverse (little_bytes n x) ∙ length-little_bytes n x,
)

blockify-++ :
    (n size : ℕ) (block rest : List ℕ)
    → length block ≡ size
    → 0 < size
    → blockify (suc n) (block ++ rest) size ≡ block ∷ blockify n rest size
unfolding blockify
blockify-++ n size [] rest e h = absurd (omega arith)
blockify-++ n size (x ∷ xs) rest e h =
    rw (take-++ size (x ∷ xs) rest e, drop-++ size (x ∷ xs) rest e) refl

last_block : (n : ℕ) (block : List ℕ) → length block ≡ 1 → blockify (suc n) block 32 ≡ block ∷ []
unfolding blockify
last_block n [] e = absurd (omega arith)
last_block zero (x ∷ []) e = refl
last_block (suc n) (x ∷ []) e = refl
last_block n (x ∷ y ∷ ys) e = absurd (omega arith)

-- Two blocks of 32 bytes and one of a single byte.
pub blockify-three :
    (n : ℕ) (a b c : List ℕ)
    → length a ≡ 32
    → length b ≡ 32
    → length c ≡ 1
    → blockify (suc (suc (suc n))) (a ++ (b ++ c)) 32 ≡ a ∷ b ∷ c ∷ []
blockify-three n a b c ea eb ec =
    blockify-++ (suc (suc n)) 32 a (b ++ c) ea (omega arith)
    ∙ ap (λ (t : List (List ℕ)). a ∷ t)
        (blockify-++ (suc n) 32 b c eb (omega arith)
          ∙ ap (λ (t : List (List ℕ)). b ∷ t) (last_block n c ec))
