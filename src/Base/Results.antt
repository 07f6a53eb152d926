-- ===== src/Base/Results.antt =====
-- What a call of a Go function ends in: a result, an error value, or a run-time panic.
use Prim.Native.String.{String}
use mathlib.Core.Path.{◌≡◌, refl, ap, ◌∙◌}
use mathlib.Core.Logic.{◌≢◌, ◌↔◌}
use mathlib.Core.Option.{Option, none, some}
use mathlib.Core.List.{List, [], ◌∷◌, map}
use zk_pig.Base.Lists.{Exists, here, there}

-- `fmt.Errorf("text")`, and `fmt.Errorf("text: %v", err)` of another error.
pub data Error : Type 0 where
  error : String → Error
  wrap : String → Error → Error

pub data Outcome {ℓ} (A : Type ℓ) : Type ℓ where
  ok : A → Outcome A
  err : Error → Outcome A
  panic : Outcome A

-- A call whose result the rest of the function uses, and a call that gives an error at most.
infixl 5 ◌>>=◌ ◌>>◌
abbrev pub ◌>>=◌ {ℓ κ} : {A : Type ℓ} {R : Type κ} → Outcome A → (A → Outcome R) → Outcome R
panic >>= rest = panic
err e >>= rest = err e
ok a >>= rest = rest a

abbrev pub ◌>>◌ {κ} : {R : Type κ} → Outcome (Unit {0}) → Outcome R → Outcome R
check >> rest = check >>= (λ done. rest)

-- `if err != nil { return nil, fmt.Errorf("text: %v", err) }` behind a call.
abbrev pub context {ℓ} : {A : Type ℓ} → String → Outcome A → Outcome A
context text (ok a) = ok a
context text (err e) = err (wrap text e)
context text panic = panic

-- A method call or a field access through a pointer that may be nil.
abbrev pub deref {ℓ} : {A : Type ℓ} → Option A → Outcome A
deref none = panic
deref (some a) = ok a

module _ {ℓ κ} {A : Type ℓ} {B : Type κ} where
  -- A loop that fills a new slice by `f`.
  abbrev pub map_each : (A → Outcome B) → List A → Outcome (List B)
  map_each f [] = ok []
  map_each f (x ∷ xs) = do y ← f x; ys ← map_each f xs; ok (y ∷ ys)

  -- The loop ends well if each of its calls does.
  pub map_each-eq-ok :
      (f : A → Outcome B) (g : A → B)
      → ((a : A) → f a ≡ ok (g a))
      → (xs : List A) → map_each f xs ≡ ok (map g xs)
  map_each-eq-ok f g h [] = refl
  map_each-eq-ok f g h (x ∷ xs) = rw (h x, map_each-eq-ok f g h xs)

module _ {ℓ} {A B C : Type ℓ} where
  -- Filling a slice by `f` from elements made by `g`, where `f` undoes `g` up to `k`.
  pub map_each-map :
      (f : B → Outcome C) (g : A → B) (k : A → C)
      → ((a : A) → f (g a) ≡ ok (k a))
      → (xs : List A) → map_each f (map g xs) ≡ ok (map k xs)
  map_each-map f g k h [] = refl
  map_each-map f g k h (x ∷ xs) = rw (h x, map_each-map f g k h xs)

module _ {ℓ} {A B C : Type ℓ} (f : A → Outcome B) (g : B → Outcome C) (k : A → C) where
  map_each-step :
      (o : Outcome B) (os : Outcome (List B)) {c : C} {cs : List C}
      → (o >>= g) ≡ ok c
      → (os >>= map_each g) ≡ ok cs
      → ((do y ← o; ys ← os; ok (y ∷ ys)) >>= map_each g) ≡ ok (c ∷ cs)
  map_each-step (ok y) (ok ys) p q = rw (p, q)
  map_each-step (ok y) (err e) p q = cc
  map_each-step (ok y) panic p q = cc
  map_each-step (err e) os p q = cc
  map_each-step panic os p q = cc

  -- Two loops in a row, the second of which undoes the first up to `k`.
  pub map_each_round_trip :
      ((a : A) → (f a >>= g) ≡ ok (k a))
      → (xs : List A) → (map_each f xs >>= map_each g) ≡ ok (map k xs)
  map_each_round_trip h [] = refl
  map_each_round_trip h (x ∷ xs) =
      map_each-step (f x) (map_each f xs) (h x) (map_each_round_trip h xs)

module _ {ℓ} {A B C : Type ℓ} where
  pub map_each-map_comp :
      (f : B → Outcome C) (g : A → B) (xs : List A)
      → map_each f (map g xs) ≡ map_each (λ x. f (g x)) xs
  map_each-map_comp f g [] = refl
  map_each-map_comp f g (x ∷ xs) = rw (map_each-map_comp f g xs)

-- A result `m` that is packed by `w`, and read back: if reading the packed result is reading `m` by
-- `g` and putting the outcome into `k`, then the packed round trip is `k` of the plain one.
module _ {ℓ} {M W T R : Type ℓ} (w : M → W) (g : M → Outcome T) (back : W → Outcome R)
    (k : T → R) where
  pub packed_round_trip :
      (o : Outcome M) {r : T}
      → ((m : M) → back (w m) ≡ (do x ← g m; ok (k x)))
      → (o >>= g) ≡ ok r
      → (do m ← o; ok (w m)) >>= back ≡ ok (k r)
  packed_round_trip (ok m) h e = h m ∙ ap (λ (p : Outcome T). do x ← p; ok (k x)) e
  packed_round_trip (err e') h e = cc
  packed_round_trip panic h e = cc

-- Two results that are equal have equal values.
pub ok_inj {ℓ} : {A : Type ℓ} {a b : A} → ◌≡◌ {A = Outcome A} (ok a) (ok b) → a ≡ b
ok_inj h = cc

-- What the success of a chain says of its first call.
module _ {ℓ κ} {A : Type ℓ} {R : Type κ} (rest : A → Outcome R) where
  pub >>=-eq-ok :
      (first : Outcome A) {r : R}
      → (first >>= rest) ≡ ok r
      → (a : A) × (first ≡ ok a) × (rest a ≡ ok r)
  >>=-eq-ok panic h = cc
  >>=-eq-ok (err e) h = cc
  >>=-eq-ok (ok a) h = (a, refl, h)

pub context-eq-ok {ℓ} :
    {A : Type ℓ} (text : String) (m : Outcome A) {a : A} → context text m ≡ ok a → m ≡ ok a
context-eq-ok text (ok a) h = h
context-eq-ok text (err e) h = cc
context-eq-ok text panic h = cc

pub deref-eq-ok {ℓ} : {A : Type ℓ} (o : Option A) {a : A} → deref o ≡ ok a → o ≡ some a
deref-eq-ok none h = cc
deref-eq-ok (some a) h = ap some (ok_inj h)

module _ {ℓ κ} {A : Type ℓ} {B : Type κ} (f : A → Outcome B) where
  -- A loop that ends well has a result for each element.
  pub map_each-Exists :
      (xs : List A) {ys : List B} {a : A}
      → map_each f xs ≡ ok ys
      → Exists (λ x. x ≡ a) xs
      → Exists (λ y. f a ≡ ok y) ys
  map_each-Exists [] h e = absurd (no_element e)
    where
      no_element : {P : A → Type ℓ} → Exists P [] → ⊥
      no_element e = elim e [ ]
  map_each-Exists (x ∷ xs) {ys} {a} h e =
      let (y, p, q) = >>=-eq-ok _ (f x) h in
      let (zs, p', q') = >>=-eq-ok _ (map_each f xs) q in
      rw (← ok_inj q') (found y zs p (λ e'. map_each-Exists xs p' e') e)
    where
      found :
          (y : B) (zs : List B)
          → f x ≡ ok y
          → (Exists (λ x'. x' ≡ a) xs → Exists (λ y'. f a ≡ ok y') zs)
          → Exists (λ x'. x' ≡ a) (x ∷ xs)
          → Exists (λ y'. f a ≡ ok y') (y ∷ zs)
      found y zs p rec (here same) = here (rw same at p)
      found y zs p rec (there e') = there (rec e')

-- A call that does not panic, and a rest that does not, do not panic together.
pub >>=-ne_panic {ℓ κ} :
    {A : Type ℓ} {B : Type κ} (m : Outcome A) (f : A → Outcome B)
    → m ≢ panic
    → ((a : A) → m ≡ ok a → f a ≢ panic)
    → (m >>= f) ≢ panic
>>=-ne_panic (ok a) f h k = k a refl
>>=-ne_panic (err e) f h k = λ e'. cc
>>=-ne_panic panic f h k = λ e. h refl

pub context-ne_panic {ℓ} :
    {A : Type ℓ} (text : String) (m : Outcome A) → m ≢ panic → context text m ≢ panic
context-ne_panic text (ok a) h = λ e. cc
context-ne_panic text (err x) h = λ e. cc
context-ne_panic text panic h = λ e. h refl

-- If the rest never panics, a chain panics exactly if its first call does.
pub >>=-panic_iff {ℓ κ} :
    {A : Type ℓ} {B : Type κ} (m : Outcome A) (f : A → Outcome B)
    → ((a : A) → f a ≢ panic)
    → ((m >>= f) ≡ panic) ↔ (m ≡ panic)
>>=-panic_iff (ok a) f h = (λ e. absurd (h a e), λ e. cc)
>>=-panic_iff (err x) f h = (λ e. cc, λ e. cc)
>>=-panic_iff panic f h = (λ e. refl, λ e. refl)
