-- ===== src/Compiler/Operators/Inversion.antt =====
-- What an operator found where it has a meaning.
use mathlib.Core.Option
use rwasm.Base.{ℕ, ◌≡◌, refl, ap, ◌∙◌, List, [], ◌∷◌, Option, some, none}
use rwasm.Types.Value.{Value}
use rwasm.Compiler.Operators.{pop_i32, pop_i64, ◌>>=◌, on_binary, on_unary}

pub bind_inv :
    {A B : Type 0} (o : Option A) (f : A → Option B) {r : B}
    → (o >>= f) ≡ some r
    → (a : A) × (o ≡ some a) × (f a ≡ some r)
bind_inv none f h = absurd cc
bind_inv (some a) f h = (a, refl, h)

pub map_inv :
    {A B : Type 0} (f : A → B) (o : Option A) {r : B}
    → Option.map f o ≡ some r
    → (a : A) × (o ≡ some a) × (f a ≡ r)
map_inv f none h = absurd cc
map_inv f (some a) h = (a, refl, cc)

pub pop_i32_inv :
    (os : List Value) (a : ℕ) (rest : List Value)
    → pop_i32 os ≡ some (a, rest)
    → os ≡ Value.i32 a ∷ rest
unfolding pop_i32
pop_i32_inv [] a rest h = absurd cc
pop_i32_inv (Value.i32 v ∷ vs) a rest h = cc
pop_i32_inv (Value.i64 v ∷ vs) a rest h = absurd cc
pop_i32_inv (Value.f32 v ∷ vs) a rest h = absurd cc
pop_i32_inv (Value.f64 v ∷ vs) a rest h = absurd cc
pop_i32_inv (Value.func_ref v ∷ vs) a rest h = absurd cc
pop_i32_inv (Value.extern_ref v ∷ vs) a rest h = absurd cc

pub pop_i64_inv :
    (os : List Value) (a : ℕ) (rest : List Value)
    → pop_i64 os ≡ some (a, rest)
    → os ≡ Value.i64 a ∷ rest
unfolding pop_i64
pop_i64_inv [] a rest h = absurd cc
pop_i64_inv (Value.i32 v ∷ vs) a rest h = absurd cc
pop_i64_inv (Value.i64 v ∷ vs) a rest h = cc
pop_i64_inv (Value.f32 v ∷ vs) a rest h = absurd cc
pop_i64_inv (Value.f64 v ∷ vs) a rest h = absurd cc
pop_i64_inv (Value.func_ref v ∷ vs) a rest h = absurd cc
pop_i64_inv (Value.extern_ref v ∷ vs) a rest h = absurd cc

-- The operands that a unary or a binary operator finds, and its result.
module _ (pop : List Value → Option (ℕ × List Value)) (wrap : ℕ → Value)
    (pop_inv : (os : List Value) (a : ℕ) (rest : List Value)
      → pop os ≡ some (a, rest)
      → os ≡ wrap a ∷ rest) where
  pub unary_inv :
      (f : ℕ → Value) (os : List Value) {os' : List Value}
      → on_unary pop f os ≡ some os'
      → (a : ℕ) × (rest : List Value) × (os ≡ wrap a ∷ rest) × (f a ∷ rest ≡ os')
  unary_inv f os h =
      let ((a, rest), p, q) = bind_inv (pop os) (λ x. some (f x.0 ∷ x.1)) h in
      (a, rest, pop_inv os _ _ p, cc)

  pub binary_inv :
      (f : ℕ → ℕ → Option Value) (os : List Value) {os' : List Value}
      → on_binary pop f os ≡ some os'
      → (a : ℕ) × (b : ℕ) × (rest : List Value) × (v : Value) × (os ≡ wrap b ∷ wrap a ∷ rest)
        × (f a b ≡ some v)
        × (v ∷ rest ≡ os')
  binary_inv f os h =
      let ((b, os1), p, q) =
        bind_inv (pop os) (λ x. pop x.1 >>= λ y. f y.0 x.0 >>= λ v. some (v ∷ y.1)) h in
      let ((a, rest), p', q') = bind_inv (pop os1) (λ y. f y.0 b >>= λ v. some (v ∷ y.1)) q in
      let (v, e, q'') = bind_inv (f a b) (λ v. some (v ∷ rest)) q' in
      (a, b, rest, v, pop_inv os _ _ p ∙ ap (λ l. wrap b ∷ l) (pop_inv os1 _ _ p'), e, cc)
