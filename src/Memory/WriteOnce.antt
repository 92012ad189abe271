-- ===== src/Memory/WriteOnce.antt =====
-- Cells are written once (`__setitem__` of starkware/cairo/lang/vm/memory_dict.py).
use pip_cairo_lang.Prelude.{
  ◌≡◌, ◌↔◌, ◌⊎◌, inl, inr, refl, true, false, not, Option, none, some, arith, if◌then◌else◌,
  Bool-cases,
}
use pip_cairo_lang.Value.{MaybeRelocatable, eqb, eqb_iff}
use pip_cairo_lang.Result.{
  Error, ok, assert-eq-ok, bind_elim, ok-injective, key_error, value_error, frozen,
}
use pip_cairo_lang.Memory.Dict.{Cells, lookup, store, lookup-store, eqb_refl}
use pip_cairo_lang.Memory.{
  MemoryDict, set_item, is_element, has_negative_offset, check_element, check_offset, set_default,
}

-- When a cell may be given a value.
pub record CanWrite (m : MemoryDict) (addr value : MaybeRelocatable) : Type 0 where
  pub open_memory : m.is_frozen ≡ false
  pub address : is_element addr ≡ true
  pub element : is_element value ≡ true
  pub offset : has_negative_offset addr ≡ false
  pub consistent : (lookup addr m.cells ≡ none) ⊎ (lookup addr m.cells ≡ some value)

-- The cells after a write: the one cell has the value, and no other has changed.
pub record Wrote (m m' : MemoryDict) (addr value : MaybeRelocatable) : Type 0 where
  pub cell :
      (k : MaybeRelocatable)
      → lookup k m'.cells ≡ (if eqb k addr then some value else lookup k m.cells)
  pub frozen_flag : m'.is_frozen ≡ m.is_frozen
  pub rules : m'.relocation_rules ≡ m.relocation_rules

same_cell :
    (k a v : MaybeRelocatable) (d : Cells)
    → lookup a d ≡ some v
    → lookup k d ≡ (if eqb k a then some v else lookup k d)
same_cell k a v d known = ground (arith, eqb_iff k a)

set_default-Wrote :
    (m m' : MemoryDict) (addr value : MaybeRelocatable) (o : Option MaybeRelocatable)
    → lookup addr m.cells ≡ o
    → set_default m addr value o ≡ ok m'
    → Wrote m m' addr value × ((o ≡ none) ⊎ (o ≡ some value))
set_default-Wrote m m' addr value none fresh h = (
  rw (← ok-injective h)
      (record { cell = λ k. lookup-store k addr value m.cells; frozen_flag = refl; rules = refl }),
  inl refl,
)
set_default-Wrote m m' addr value (some current) known h = elim (Bool-cases (eqb current value)) [
  | inl same ↦
      let e : current ≡ value = (eqb_iff current value).0 same in
      let unchanged : m ≡ m' = ok-injective (rw same at h) in
      (
        rw (← unchanged) (record {
          cell = λ k. same_cell k addr value m.cells (rw (← e) known);
          frozen_flag = refl;
          rules = refl;
        }),
        inr (rw e),
      )
  | inr differs ↦ absurd (cc (rw differs at h))
]

check_element-ok :
    (a : MaybeRelocatable) (e : Error) {u : Unit {0}}
    → check_element a e ≡ ok u
    → is_element a ≡ true
check_element-ok a e h = ground arith

check_offset-ok :
    (a : MaybeRelocatable) {u : Unit {0}} → check_offset a ≡ ok u → has_negative_offset a ≡ false
check_offset-ok a h = ground arith

-- A successful write was allowed, and changes its one cell only.
pub set_item-Wrote :
    (m m' : MemoryDict) (addr value : MaybeRelocatable)
    → set_item m addr value ≡ ok m'
    → CanWrite m addr value × Wrote m m' addr value
unfolding set_item
set_item-Wrote m m' addr value h = bind_elim _ _ h λ _ c0 h1. bind_elim _ _ h1 λ _ c1 h2.
    bind_elim _ _ h2 λ _ c2 h3. bind_elim _ _ h3 λ _ c3 h4.
      let (wrote, consistent) = set_default-Wrote m m' addr value (lookup addr m.cells) refl h4 in
      (
        record {
          open_memory = ground (arith, assert-eq-ok (not m.is_frozen) frozen c0);
          address = check_element-ok addr key_error c1;
          element = check_element-ok value value_error c2;
          offset = check_offset-ok addr c3;
          consistent = consistent;
        },
        wrote,
      )

-- and an allowed write succeeds.
set_item_of_CanWrite :
    (m : MemoryDict) (addr value : MaybeRelocatable)
    → CanWrite m addr value
    → (m' : MemoryDict) × (set_item m addr value ≡ ok m')
unfolding set_item
set_item_of_CanWrite m addr value c = elim c.consistent [
  | inl fresh ↦ (
    record m { cells = store addr value m.cells },
    rw (c.open_memory, c.address, c.element, c.offset, fresh),
  )
  | inr known ↦ (m, rw (c.open_memory, c.address, c.element, c.offset, known, eqb_refl value))
]

-- A write succeeds exactly when the memory is not frozen, the address and the value are valid, and
-- the cell is empty or has that value already.
pub set_item_iff :
    (m : MemoryDict) (addr value : MaybeRelocatable)
    → ((m' : MemoryDict) × (set_item m addr value ≡ ok m')) ↔ CanWrite m addr value
set_item_iff m addr value =
    (λ h. (set_item-Wrote m h.0 addr value h.1).0, set_item_of_CanWrite m addr value)

-- Any number of successful writes.
pub data Writes (m : MemoryDict) : MemoryDict → Type 0 where
  here : Writes m m
  next :
      {n n' : MemoryDict} (addr value : MaybeRelocatable)
      → Writes m n
      → set_item n addr value ≡ ok n'
      → Writes m n'

Wrote-keeps :
    (m m' : MemoryDict) (a v k w : MaybeRelocatable)
    → CanWrite m a v
    → Wrote m m' a v
    → lookup k m.cells ≡ some w
    → lookup k m'.cells ≡ some w
Wrote-keeps m m' a v k w can wrote known = ground (arith, wrote.cell k, eqb_iff k a, can.consistent)

-- No sequence of writes changes a cell that has a value.
pub Writes-keeps :
    {m m' : MemoryDict} (k w : MaybeRelocatable)
    → Writes m m'
    → lookup k m.cells ≡ some w
    → lookup k m'.cells ≡ some w
Writes-keeps k w here known = known
Writes-keeps k w (next {n} {n'} addr value before step) known =
    let (can, wrote) = set_item-Wrote n n' addr value step in
    Wrote-keeps n n' addr value k w can wrote (Writes-keeps k w before known)

-- After a write, and whatever other writes have succeeded since, a write to the same address
-- succeeds only with the same value.
pub write_once :
    (m : MemoryDict) {m1 m2 m3 : MemoryDict} (addr v w : MaybeRelocatable)
    → set_item m addr v ≡ ok m1
    → Writes m1 m2
    → set_item m2 addr w ≡ ok m3
    → w ≡ v
write_once m {m1} {m2} {m3} addr v w first between second =
    let known : lookup addr m1.cells ≡ some v =
      rw ((set_item-Wrote m m1 addr v first).1.cell addr, eqb_refl addr) in
    let kept = Writes-keeps addr v between known in
    let can = (set_item-Wrote m2 m3 addr w second).0 in ground (arith, can.consistent, kept)
