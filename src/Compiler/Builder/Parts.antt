-- ===== src/Compiler/Builder/Parts.antt =====
-- The parts of an instruction that is built: offsets in range, and an immediate exactly where op1
-- is one (starkware/cairo/lang/compiler/instruction_builder.py).
use pip_cairo_lang.Prelude.{◌≡◌, refl, true, false, Option, none, some, Bool-cases, inl, inr}
use pip_cairo_lang.Prelude.Int.{ℤ, pos, ◌*ℤ◌}
use pip_cairo_lang.Result.{BuilderCheck, ok, ◌>>=◌, ok-injective, bind_elim}
use pip_cairo_lang.Instruction.{Register, Op1Addr, Res}
use pip_cairo_lang.Encode.Flags.{is_imm, has_imm, is_unconstrained, same}
use pip_cairo_lang.Encode.Encoder.{in_range}
use pip_cairo_lang.Compiler.Expr.{Operator, Expr}
use pip_cairo_lang.Compiler.Builder.{
  ResDescription, within_limit, sign_of, parse_dereference, parse_register, parse_offset,
  parse_register_offset, parse_double_deref, parse_single_deref, parse_res_deref, parse_op1,
  parse_res_operator, res_of, tag_value, parse_res, op1_addr_of, parse_target,
}

parse_offset-in_range :
    (e inner : Expr) (off : ℤ) → parse_offset e ≡ ok (inner, off) → in_range off ≡ true
unfolding parse_offset
parse_offset-in_range (Expr.operator a op (Expr.const v)) inner off h =
    bind_elim (sign_of op) _ h λ sign hs h1. elim (Bool-cases (within_limit (sign *ℤ v))) [
      | inl t ↦ let e : sign *ℤ v ≡ off = cc (rw t at h1) in rw (← e) t
      | inr f ↦ absurd (cc (rw f at h1))
    ]
parse_offset-in_range (Expr.operator a op b) inner off h =
    bind_elim (sign_of op) _ h λ sign hs h1. absurd (cc h1)
parse_offset-in_range e inner off h = let e : pos 0 ≡ off = cc h in rw (← e) refl

pub parse_register_offset-in_range :
    (e : Expr) (r : Register) (off : ℤ)
    → parse_register_offset e ≡ ok (r, off)
    → in_range off ≡ true
unfolding parse_register_offset
parse_register_offset-in_range e r off h = bind_elim (parse_offset e) _ h λ q hq h1.
    bind_elim (parse_register q.0) _ h1
      λ r' hr h2. let e' : q.1 ≡ off = cc h2 in rw (← e') (parse_offset-in_range e q.0 q.1 hq)

-- What a second operand or a target must keep.
pub record IsOp1 (q : Op1Addr × ℤ × Option ℤ) : Type 0 where
  pub off2 : in_range q.1 ≡ true
  pub imm : same (has_imm q.2) (is_imm q.0) ≡ true

at_register :
    (addr : Expr) (q : Op1Addr × ℤ × Option ℤ)
    → (parse_register_offset addr >>= λ v. ok (op1_addr_of v.0, v.1, none)) ≡ ok q
    → IsOp1 q
at_register addr q h = bind_elim (parse_register_offset addr) _ h λ v hv h1.
    let e : (op1_addr_of v.0, v.1, none) ≡ q = ok-injective h1 in
    rw (← e) (record {
      off2 = parse_register_offset-in_range addr v.0 v.1 hv;
      imm = elim v.0 as (λ r. same (has_imm none) (is_imm (op1_addr_of r)) ≡ true) [
        | Register.ap ↦ refl
        | Register.fp ↦ refl
      ];
    })

-- What a description of res must keep.
pub record IsDescription (d : ResDescription) : Type 0 where
  pub off1 : in_range d.off1 ≡ true
  pub off2 : in_range d.off2 ≡ true
  pub imm : same (has_imm d.imm) (is_imm d.op1_addr) ≡ true
  pub res : is_unconstrained d.res ≡ false

parse_op1-IsOp1 : (b : Expr) (q : Op1Addr × ℤ × Option ℤ) → parse_op1 b ≡ ok q → IsOp1 q
unfolding parse_op1
parse_op1-IsOp1 (Expr.const v) q h =
    let e : (Op1Addr.imm, pos 1, some v) ≡ q = ok-injective h in
    rw (← e) (record { off2 = refl; imm = refl })
parse_op1-IsOp1 (Expr.deref addr) q h = at_register addr q h
parse_op1-IsOp1 _ q h = absurd (cc h)

pub parse_target-IsOp1 :
    (t : Expr) (c : BuilderCheck) (q : Op1Addr × ℤ × Option ℤ) → parse_target t c ≡ ok q → IsOp1 q
unfolding parse_target
parse_target-IsOp1 (Expr.const v) c q h =
    let e : (Op1Addr.imm, pos 1, some v) ≡ q = ok-injective h in
    rw (← e) (record { off2 = refl; imm = refl })
parse_target-IsOp1 (Expr.deref addr) c q h = at_register addr q h
parse_target-IsOp1 _ c q h = absurd (cc h)

parse_double_deref-IsDescription :
    (e : Expr) (d : ResDescription) → parse_double_deref e ≡ ok d → IsDescription d
unfolding parse_double_deref
parse_double_deref-IsDescription e d h = bind_elim (parse_offset e) _ h λ q hq h1.
    bind_elim (parse_dereference q.0) _ h1 λ inner hi h2.
      bind_elim (parse_register_offset inner) _ h2 λ v hv h3. rw (← ok-injective h3) (record {
        off1 = parse_register_offset-in_range inner v.0 v.1 hv;
        off2 = parse_offset-in_range e q.0 q.1 hq;
        imm = refl;
        res = refl;
      })

parse_single_deref-IsDescription :
    (e : Expr) (d : ResDescription) → parse_single_deref e ≡ ok d → IsDescription d
unfolding parse_single_deref
parse_single_deref-IsDescription e d h = bind_elim (parse_register_offset e) _ h λ v hv h1.
    let op1 = at_register e (op1_addr_of v.0, v.1, none) (rw hv refl) in
    rw (← ok-injective h1) (record { off1 = refl; off2 = op1.off2; imm = op1.imm; res = refl })

parse_res_deref-IsDescription :
    (e : Expr) (d : ResDescription) → parse_res_deref e ≡ ok d → IsDescription d
unfolding parse_res_deref
parse_res_deref-IsDescription (Expr.deref e) d h =
    parse_double_deref-IsDescription (Expr.deref e) d h
parse_res_deref-IsDescription (Expr.operator (Expr.deref a) op b) d h =
    parse_double_deref-IsDescription (Expr.operator (Expr.deref a) op b) d h
parse_res_deref-IsDescription e d h = parse_single_deref-IsDescription e d h

res_of-constrained : (op : Operator) (r : Res) → res_of op ≡ ok r → is_unconstrained r ≡ false
res_of-constrained Operator.add r h = rw (← ok-injective h) refl
res_of-constrained Operator.mul r h = rw (← ok-injective h) refl
res_of-constrained _ r h = absurd (cc h)

parse_res_operator-IsDescription :
    (a : Expr) (op : Operator) (b : Expr) (d : ResDescription)
    → parse_res_operator a op b ≡ ok d
    → IsDescription d
unfolding parse_res_operator
parse_res_operator-IsDescription a op b d h = bind_elim (res_of op) _ h λ r hr h1.
    bind_elim (parse_dereference a) _ h1 λ inner hi h2.
      bind_elim (parse_register_offset inner) _ h2 λ v hv h3.
        bind_elim (parse_op1 b) _ h3 λ q hq h4.
          let op1 = parse_op1-IsOp1 b q hq in
          rw (← ok-injective h4) (record {
            off1 = parse_register_offset-in_range inner v.0 v.1 hv;
            off2 = op1.off2;
            imm = op1.imm;
            res = res_of-constrained op r hr;
          })

pub parse_res-IsDescription : (e : Expr) (d : ResDescription) → parse_res e ≡ ok d → IsDescription d
unfolding parse_res
parse_res-IsDescription (Expr.deref addr) d h = parse_res_deref-IsDescription addr d h
parse_res-IsDescription (Expr.const v) d h =
    rw (← ok-injective h) (record { off1 = refl; off2 = refl; imm = refl; res = refl })
parse_res-IsDescription (Expr.operator a op b) d h = parse_res_operator-IsDescription a op b d h
parse_res-IsDescription (Expr.symbolic tag) d h =
    bind_elim (tag_value tag) _ h λ v hv h1.
      rw (← ok-injective h1) (record { off1 = refl; off2 = refl; imm = refl; res = refl })
parse_res-IsDescription _ d h = absurd (cc h)
