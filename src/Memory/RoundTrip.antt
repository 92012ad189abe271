-- ===== src/Memory/RoundTrip.antt =====
-- Reading back a memory from its binary form (starkware/cairo/lang/vm/memory_dict.py).
use native.Mathlib.Nat.{mul-div_cancel, mul-mod_left}
use mathlib.Core.List.{append-nil, append_assoc}
use pip_cairo_lang.Prelude
use pip_cairo_lang.Prelude.{
  ℕ, zero, suc, ◌+◌, ◌*◌, ◌/◌, ◌%◌, ◌<◌, ◌==◌, ◌≡◌, refl, sym, ◌∙◌, arith, true, false, none, List,
  [], ◌∷◌, ◌++◌, take, drop, length, length-append, take-++, drop-++,
}
use pip_cairo_lang.Value.{MaybeRelocatable}
use pip_cairo_lang.Result.{ok, ◌>>=◌, ok-injective, assert-then, bind_elim}
use pip_cairo_lang.Relocatable.Bytes.{little, from_bytes}
use pip_cairo_lang.Relocatable.ByteLaws.{IsSerializable, length-to_bytes, from_bytes-to_bytes}
use pip_cairo_lang.Memory.Dict.{Cells, lookup, store}
use pip_cairo_lang.Memory.{MemoryDict, no_rules}
use pip_cairo_lang.Memory.Serial.{serialize_cells, serialize, read_pairs, deserialize}

-- Every address and every value is one that the byte form can tell apart.
abbrev pub AllSerializable : Cells → Type 0
AllSerializable [] = Unit
AllSerializable ((a, v) ∷ d) = IsSerializable a × IsSerializable v × AllSerializable d

-- No key of the second dictionary occurs before it.
abbrev pub AllNew : Cells → Cells → Type 0
AllNew done [] = Unit
AllNew done ((a, v) ∷ d) = (lookup a done ≡ none) × AllNew (done ++ ((a, v) ∷ [])) d

store-new :
    (a v : MaybeRelocatable) (d : Cells) → lookup a d ≡ none → store a v d ≡ d ++ ((a, v) ∷ [])
unfolding lookup store
store-new a v [] h = refl
store-new a v ((b, w) ∷ d) h = ground (arith, store-new a v d)

-- A pair that was written is read from the front of the data, and the rest follows.
read_pair :
    (a v : List ℕ) (rest : List ℕ) (field_bytes : ℕ)
    → length a ≡ 8
    → length v ≡ field_bytes
    → (take 8 ((a ++ v) ++ rest) ≡ a)
      × (take field_bytes (drop 8 ((a ++ v) ++ rest)) ≡ v)
      × (drop (8 + field_bytes) ((a ++ v) ++ rest) ≡ rest)
read_pair a v rest field_bytes ha hv =
    let e = append_assoc a v rest in
    (
      rw e (take-++ 8 a (v ++ rest) ha),
      rw (e, drop-++ 8 a (v ++ rest) ha) (take-++ field_bytes v rest hv),
      drop-++ (8 + field_bytes) (a ++ v) rest (omega (arith, length-append a v)),
    )

length-serialize_cells :
    (d : Cells) (field_bytes : ℕ) (bytes : List ℕ)
    → serialize_cells d field_bytes ≡ ok bytes
    → length bytes ≡ length d * (8 + field_bytes)
unfolding serialize_cells
length-serialize_cells [] field_bytes bytes h = rw (← ok-injective h) (omega arith)
length-serialize_cells ((a, v) ∷ d) field_bytes bytes h = bind_elim _ _ h λ x hx h1.
    bind_elim _ _ h1 λ y hy h2. bind_elim _ _ h2 λ rest hr h3.
      rw
        (
          ← ok-injective h3,
          length-append (x ++ y) rest,
          length-append x y,
          length-to_bytes a 8 little x hx,
          length-to_bytes v field_bytes little y hy,
          length-serialize_cells d field_bytes rest hr,
        )
        (omega arith)

-- One turn of the loop, where the front of the data is a pair that was written.
read_pairs-pair :
    (n : ℕ) (a v rest : List ℕ) (field_bytes : ℕ) (done : Cells)
    → length a ≡ 8
    → length v ≡ field_bytes
    → read_pairs (suc n) ((a ++ v) ++ rest) field_bytes done ≡ (
        from_bytes a little >>= λ addr.
        from_bytes v little >>= λ value. read_pairs n rest field_bytes (store addr value done))
unfolding read_pairs
read_pairs-pair n a v rest field_bytes done ha hv =
    let (e1, e2, e3) = read_pair a v rest field_bytes ha hv in
    Prelude.ap
      (λ (t : List ℕ × List ℕ × List ℕ). from_bytes t.0 little >>= λ addr.
        from_bytes t.1 little >>= λ value. read_pairs n t.2 field_bytes (store addr value done))
      (λ i. (e1 i, e2 i, e3 i))

read_pairs-serialize_cells :
    (d done : Cells) (field_bytes : ℕ) (bytes : List ℕ)
    → AllSerializable d
    → AllNew done d
    → 0 < field_bytes
    → serialize_cells d field_bytes ≡ ok bytes
    → read_pairs (length d) bytes field_bytes done ≡ ok (done ++ d)
unfolding serialize_cells read_pairs
read_pairs-serialize_cells [] done field_bytes bytes _ _ _ h =
    Prelude.ap (λ (d : Cells). ok d) (sym (append-nil done))
read_pairs-serialize_cells ((a, v) ∷ d) done field_bytes bytes (sa, sv, sd) (new, later) wide h =
    bind_elim _ _ h λ x hx h1. bind_elim _ _ h1 λ y hy h2. bind_elim _ _ h2 λ rest hr h3.
      let ra : from_bytes x little ≡ ok a = from_bytes-to_bytes a 8 little x sa (omega arith) hx in
      let rv : from_bytes y little ≡ ok v = from_bytes-to_bytes v field_bytes little y sv wide hy in
      let all : (x ++ y) ++ rest ≡ bytes = ok-injective h3 in
      rw (← all) (
        read_pairs-pair (length d) x y rest field_bytes done (length-to_bytes a 8 little x hx)
          (length-to_bytes v field_bytes little y hy)
        ∙ rw
            (
              ra,
              rv,
              store-new a v done new,
              read_pairs-serialize_cells d (done ++ ((a, v) ∷ [])) field_bytes rest sd later wide
                  hr,
            )
            (Prelude.ap (λ (d : Cells). ok d) (append_assoc done ((a, v) ∷ []) d)))

-- Where no key occurs twice, and every address among the keys and values has a segment index from
-- 0 up to 2 ** 16 and an offset from 0 up to 2 ** 47 (integers are not restricted), a memory that
-- has been written is read back with the same cells in the same order, not frozen and without
-- relocation rules, for any positive number of bytes of the values that it was written in.
pub deserialize-memory :
    (m : MemoryDict) (field_bytes : ℕ) (bytes : List ℕ)
    → AllSerializable m.cells
    → AllNew [] m.cells
    → 0 < field_bytes
    → serialize m field_bytes ≡ ok bytes
    → deserialize bytes field_bytes
      ≡ ok (record { cells = m.cells; is_frozen = false; relocation_rules = [] })
unfolding serialize deserialize
deserialize-memory m field_bytes bytes small new wide h =
    let (bare, h1) = assert-then (no_rules m.relocation_rules) _ _ h in
    let e = length-serialize_cells m.cells field_bytes bytes h1 in
    let n = length m.cells in
    let whole : (n * (8 + field_bytes)) % (8 + field_bytes) ≡ 0 =
      mul-mod_left n (8 + field_bytes) in
    let count : n * (8 + field_bytes) / (8 + field_bytes) ≡ n = mul-div_cancel n (omega arith) in
    rw (e, whole, count, read_pairs-serialize_cells m.cells [] field_bytes bytes small new wide h1)
      refl
