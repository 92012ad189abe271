-- ===== src/Compiler/Meaning/Offsets.antt =====
-- The value of an address `reg + off`, as the machine computes it (`_parse_offset` and
-- `_parse_register_offset` of starkware/cairo/lang/compiler/instruction_builder.py).
use pip_cairo_lang.Prelude.{ℕ, ◌<◌, ◌≡◌, refl, sym, ap, ◌∙◌, Bool-cases, inl, inr}
use pip_cairo_lang.Prelude.Int.{ℤ, pos, negsuc, ◌+ℤ◌, ◌*ℤ◌, ◌%ℤ◌, int_laws, *ℤ_parts}
use pip_cairo_lang.Value.{MaybeRelocatable, int, relocatable}
use pip_cairo_lang.Result.{ok, bind_elim, ok-injective}
use pip_cairo_lang.Relocatable.{add, mod_prime}
use pip_cairo_lang.Instruction.{Register}
use pip_cairo_lang.Memory.{MemoryDict}
use pip_cairo_lang.Vm.State.{RunContext}
use pip_cairo_lang.Vm.Addresses.{register, displace}
use pip_cairo_lang.Compiler.Expr.{Operator, Expr}
use pip_cairo_lang.Compiler.Builder.{
  within_limit, limited, parse_offset, parse_register, parse_register_offset,
}
use pip_cairo_lang.Compiler.Meaning.{operate, value}
use pip_cairo_lang.Compiler.Meaning.Arithmetic.{add-mod_prime, sub-mod_prime}

limited-same : (v off : ℤ) → limited v ≡ ok off → v ≡ off
limited-same v off h = elim (Bool-cases (within_limit v)) [
  | inl t ↦ ok-injective (rw t at h)
  | inr f ↦ absurd (cc (rw f at h))
]

-- Adding nothing.
add_zero : (x s : MaybeRelocatable) → add x (int (pos 0)) ≡ ok s → x ≡ s
unfolding add
add_zero (int a) s h =
    let e : a +ℤ pos 0 ≡ a = omega int_laws in rw (← ok-injective h) (ap int (sym e))
add_zero (relocatable a) s h =
    let e : a.offset +ℤ pos 0 ≡ a.offset = omega int_laws in
    rw (← ok-injective h) (ap (λ (n : ℤ). relocatable (record a { offset = n })) (sym e))

pub value_operator :
    (c : RunContext) (m : MemoryDict) (a : Expr) (op : Operator) (b : Expr)
    (x y q : MaybeRelocatable)
    → value c m a ≡ ok x
    → value c m b ≡ ok y
    → operate op x y ≡ ok q
    → value c m (Expr.operator a op b) ≡ ok (mod_prime q c.prime)
unfolding value
value_operator c m a op b x y q ha hb hq = rw (ha, hb, hq) refl

displace_parts :
    (x : MaybeRelocatable) (off : ℤ) (p : ℕ) (addr : MaybeRelocatable)
    → displace x off p ≡ ok addr
    → (s : MaybeRelocatable) × (add x (int off) ≡ ok s) × (mod_prime s p ≡ addr)
unfolding displace
displace_parts x off p addr h = bind_elim (add x (int off)) _ h λ s hs h1. (s, hs, ok-injective h1)

plus_const :
    (c : RunContext) (m : MemoryDict) (a : Expr) (v : ℤ) (x s : MaybeRelocatable)
    → 0 < c.prime
    → value c m a ≡ ok (mod_prime x c.prime)
    → add x (int v) ≡ ok s
    → value c m (Expr.operator a Operator.add (Expr.const v)) ≡ ok (mod_prime s c.prime)
unfolding mod_prime
plus_const c m a v x s positive hv hs =
    let (q, sum, same) = add-mod_prime c.prime positive x (int v) s hs in
    value_operator c m a Operator.add (Expr.const v) _ (int (pos (v %ℤ c.prime))) q hv
      (unfold value in refl) sum
    ∙ ap ok same

minus_const :
    (c : RunContext) (m : MemoryDict) (a : Expr) (v : ℤ) (x s : MaybeRelocatable)
    → 0 < c.prime
    → value c m a ≡ ok (mod_prime x c.prime)
    → add x (int (negsuc 0 *ℤ v)) ≡ ok s
    → value c m (Expr.operator a Operator.sub (Expr.const v)) ≡ ok (mod_prime s c.prime)
minus_const c m a v x s positive hv hs =
    let (q, difference, same) = sub-mod_prime c.prime positive x s v hs in
    value_operator c m a Operator.sub (Expr.const v) _ (int (pos (v %ℤ c.prime))) q hv
      (unfold value in refl) difference
    ∙ ap ok same

register_value :
    (c : RunContext) (m : MemoryDict) (e : Expr) (r : Register)
    → parse_register e ≡ ok r
    → value c m e ≡ ok (mod_prime (register c r) c.prime)
unfolding parse_register value
register_value c m (Expr.reg r') r h =
    ap (λ (q : Register). ok (mod_prime (register c q) c.prime)) (ok-injective h)
register_value c m _ r h = absurd (cc h)

-- An expression `inner + off`, `inner - off` or `inner`: where `inner` stands for `x` modulo the
-- prime, the whole stands for x + off.
pub parse_offset-value :
    (c : RunContext) (m : MemoryDict) (e inner : Expr) (off : ℤ) (x addr : MaybeRelocatable)
    → 0 < c.prime
    → parse_offset e ≡ ok (inner, off)
    → value c m inner ≡ ok (mod_prime x c.prime)
    → displace x off c.prime ≡ ok addr
    → value c m e ≡ ok addr
unfolding parse_offset
parse_offset-value c m (Expr.operator a Operator.add (Expr.const v)) inner off x addr positive h hv
      hd =
    bind_elim (limited (pos 1 *ℤ v)) _ h λ o ho h1.
      let (s, hs, e) = displace_parts x off c.prime addr hd in
      let from : a ≡ inner = cc h1 in
      let one : pos 1 *ℤ v ≡ v = omega (int_laws, *ℤ_parts (pos 1) v) in
      let same : v ≡ off = sym one ∙ (limited-same _ o ho ∙ (cc h1)) in
      plus_const c m a v x s positive (rw (← from) at hv) (rw (← same) at hs) ∙ ap ok e
parse_offset-value c m (Expr.operator a Operator.sub (Expr.const v)) inner off x addr positive h hv
      hd =
    bind_elim (limited (negsuc 0 *ℤ v)) _ h λ o ho h1.
      let (s, hs, e) = displace_parts x off c.prime addr hd in
      let from : a ≡ inner = cc h1 in
      let same : negsuc 0 *ℤ v ≡ off = limited-same _ o ho ∙ (cc h1) in
      minus_const c m a v x s positive (rw (← from) at hv) (rw (← same) at hs) ∙ ap ok e
parse_offset-value c m (Expr.operator a op b) inner off x addr positive h hv hd = absurd (cc h)
parse_offset-value c m e inner off x addr positive h hv hd =
    let (s, hs, reduced) = displace_parts x off c.prime addr hd in
    let same : e ≡ inner = cc h in
    let none : pos 0 ≡ off = cc h in
    let whole : x ≡ s = add_zero x s (rw (← none) at hs) in rw (same, hv, whole) (ap ok reduced)

-- The register of an address has its own value.
pub parse_register_offset-value :
    (c : RunContext) (m : MemoryDict) (e : Expr) (r : Register) (off : ℤ) (addr : MaybeRelocatable)
    → 0 < c.prime
    → parse_register_offset e ≡ ok (r, off)
    → displace (register c r) off c.prime ≡ ok addr
    → value c m e ≡ ok addr
unfolding parse_register_offset
parse_register_offset-value c m e r off addr positive h hd =
    bind_elim (parse_offset e) _ h λ q hq h1. bind_elim (parse_register q.0) _ h1 λ r' hr h2.
      let same_off : q.1 ≡ off = cc h2 in
      let same_reg : r' ≡ r = cc h2 in
      parse_offset-value c m e q.0 off (register c r) addr positive (rw (← same_off) hq)
        (register_value c m q.0 r (rw same_reg at hr)) hd
