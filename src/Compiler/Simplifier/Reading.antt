-- ===== src/Compiler/Simplifier/Reading.antt =====
-- What the expressions that the simplifier rewrites stand for
-- (starkware/cairo/lang/compiler/expression_simplifier.py): an integer, read modulo the prime where
-- there is one. The reading of everything but the arithmetic is free.
use Prim.Native.String.{String}
use pip_cairo_lang.Prelude.{ℕ, ◌<◌, ◌≢◌, Bool, Option, none, some}
use pip_cairo_lang.Prelude.Int.{ℤ, pos, negsuc, ◌+ℤ◌, ◌-ℤ◌, ◌*ℤ◌, ◌%ℤ◌}
use pip_cairo_lang.Prelude.Mod.{Cong}
use pip_cairo_lang.Instruction.{Register}
use pip_cairo_lang.Compiler.Expr.{Operator, Expr, ArgList}
use pip_cairo_lang.Compiler.Simplifier.{power}

-- the expressions without parts, but for the constants
pub data Atom : Type 0 where
  reg : Register → Atom
  name : String → Atom
  hint : String → Atom
  label : String → Bool → Atom
  no_args : Atom

-- the expressions of one or two parts, but for the sums, products and powers
pub data Former : Type 0 where
  quotient deref address_of cast symbolic subscript tuple : Former
  dot : String → Former
  new_operator : Bool → Former
  arg : Option String → Former

pub record Reading : Type 0 where
  pub atom : Atom → ℤ
  pub apply : Former → ℤ → ℤ → ℤ
  -- a power whose exponent is -(n + 1)
  pub inverse_power : ℤ → ℕ → ℤ

module _ (i : Reading) where
  abbrev pub operate : Operator → ℤ → ℤ → ℤ
  operate Operator.add a b = a +ℤ b
  operate Operator.sub a b = a -ℤ b
  operate Operator.mul a b = a *ℤ b
  operate Operator.div a b = i.apply Former.quotient a b

  abbrev pub to_power : ℤ → ℤ → ℤ
  to_power a (pos n) = power a n
  to_power a (negsuc n) = i.inverse_power a n

  -- a form of one part
  abbrev pub form : Former → ℤ → ℤ
  form f a = i.apply f a (pos 0)

  unfoldable mutual
    pub meaning : Expr → ℤ
    meaning (Expr.const v) = v
    meaning (Expr.hint code) = i.atom (Atom.hint code)
    meaning (Expr.identifier n) = i.atom (Atom.name n)
    meaning (Expr.reg r) = i.atom (Atom.reg r)
    meaning (Expr.operator a op b) = operate op (meaning a) (meaning b)
    meaning (Expr.pow a b) = to_power (meaning a) (meaning b)
    meaning (Expr.address_of e) = form Former.address_of (meaning e)
    meaning (Expr.neg e) = pos 0 -ℤ meaning e
    meaning (Expr.parentheses e) = meaning e
    meaning (Expr.deref e) = form Former.deref (meaning e)
    meaning (Expr.subscript e o) = i.apply Former.subscript (meaning e) (meaning o)
    meaning (Expr.dot e m) = form (Former.dot m) (meaning e)
    meaning (Expr.cast e) = form Former.cast (meaning e)
    meaning (Expr.symbolic e) = form Former.symbolic (meaning e)
    meaning (Expr.tuple members) = form Former.tuple (meaning_args members)
    meaning (Expr.future_label n t) = i.atom (Atom.label n t)
    meaning (Expr.new_operator e t) = form (Former.new_operator t) (meaning e)

    pub meaning_args : ArgList → ℤ
    meaning_args ArgList.no_args = i.atom Atom.no_args
    meaning_args (ArgList.arg n e args) = i.apply (Former.arg n) (meaning e) (meaning_args args)

  -- A reading is one modulo p: equal parts modulo p give equal wholes, and a quotient by a number
  -- that is not 0 modulo p is the number whose product with it is the dividend.
  pub record IsModulo (p : ℕ) : Type 0 where
    pub positive : 0 < p
    pub apply-Cong :
        (f : Former) (x y x' y' : ℤ)
        → Cong p x x'
        → Cong p y y'
        → Cong p (i.apply f x y) (i.apply f x' y')
    pub inverse_power-Cong :
        (x x' : ℤ) (n : ℕ) → Cong p x x' → Cong p (i.inverse_power x n) (i.inverse_power x' n)
    pub quotient-Cong :
        (x y z : ℤ) → y %ℤ p ≢ 0 → Cong p (y *ℤ x) z → Cong p x (i.apply Former.quotient z y)

  -- Without a prime nothing is asked.
  abbrev pub Allows : Option ℕ → Type 0
  Allows none = Unit
  Allows (some p) = IsModulo p

abbrev pub modulus : Option ℕ → ℕ
modulus none = 0
modulus (some p) = p

-- The integers are equal, or equal modulo the prime.
abbrev pub Same : Option ℕ → ℤ → ℤ → Type 0
Same prime = Cong (modulus prime)
