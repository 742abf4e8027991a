-- ===== src/Prelude/Result.antt =====
-- Code that may raise: `err` holds the message of the `ValueError`.
use Prim.Native.String.{String}
use mathlib.Core.Path.{◌≡◌, refl, ap, ◌∙◌}
use mathlib.Core.Bool.{Bool, true, false}
use mathlib.Core.Logic.{◌↔◌}
use mathlib.Core.List.{List, [], ◌∷◌}
use weavegate.Prelude.Lists.{All}

pub data Result {κ} (T : Type κ) : Type κ where
  ok : T → Result T
  err : (message : String) → Result T

-- A check raises or returns nothing.
abbrev pub Check : Type 0
Check = Result (Unit {0})

-- An exception ends what follows.
abbrev pub ◌>>=◌ {κ μ} : {T : Type κ} {U : Type μ} → Result T → (T → Result U) → Result U
err message >>= next = err message
ok value >>= next = next value

abbrev pub ◌>>◌ {μ} : {U : Type μ} → Check → Result U → Result U
check >> rest = check >>= λ _. rest

infixl 5 ◌>>=◌ ◌>>◌
-- `need(condition, message)` of the vector checker, `require` of the experiment code.
abbrev pub need : Bool → String → Check
need true message = ok tt
need false message = err message

abbrev pub IsOk {ℓ} : {A : Type ℓ} → Result A → Type 0
IsOk (ok _) = Unit
IsOk (err _) = ⊥

pub >>=-eq-ok {κ μ} :
    {T : Type κ} {U : Type μ} (first : Result T) (next : T → Result U) {u : U}
    → (first >>= next) ≡ ok u
    → (t : T) × (first ≡ ok t) × (next t ≡ ok u)
>>=-eq-ok (err message) next h = cc
>>=-eq-ok (ok t) next h = (t, refl, h)

pub ok-injective {ℓ} : {A : Type ℓ} (a b : A) → ok a ≡ ok b → a ≡ b
ok-injective a b h = cc

pub need-eq-ok : (c : Bool) (m : String) {u : Unit {0}} → need c m ≡ ok u → c ≡ true
need-eq-ok true m h = refl
need-eq-ok false m h = cc

pub >>=-cong {ℓ κ} :
    {A : Type ℓ} {B : Type κ} (m n : Result A) (f g : A → Result B)
    → m ≡ n
    → ((a : A) → f a ≡ g a)
    → (m >>= f) ≡ (n >>= g)
>>=-cong (ok a) n f g e h = h a ∙ ap (λ r. r >>= g) e
>>=-cong (err x) n f g e h = ap (λ r. r >>= g) e

-- What follows a test is compared where the test holds.
pub need-cong {ℓ} :
    {B : Type ℓ} (c : Bool) (m : String) (k l : Result B)
    → (c ≡ true → k ≡ l)
    → (need c m >> k) ≡ (need c m >> l)
need-cong true m k l h = h refl
need-cong false m k l h = refl

-- `for x in xs: check(x)`.
unfoldable pub for_each {ℓ} : {A : Type ℓ} → (A → Check) → List A → Check
for_each f [] = ok tt
for_each f (x ∷ xs) = f x >> for_each f xs

pub >>-eq-ok : (first next : Check) → (first >> next) ≡ ok tt → (first ≡ ok tt) × (next ≡ ok tt)
>>-eq-ok (err message) next h = cc
>>-eq-ok (ok tt) next h = (refl, h)

pub for_each-All {ℓ} :
    {A : Type ℓ} (f : A → Check) (xs : List A) → (for_each f xs ≡ ok tt) ↔ All (λ x. f x ≡ ok tt) xs
unfolding for_each
for_each-All f [] = (λ h. tt, λ h. refl)
for_each-All f (x ∷ xs) = (
  λ h. let (here, rest) = >>-eq-ok (f x) (for_each f xs) h in (here, (for_each-All f xs).0 rest),
  λ (here, rest). rw here ((for_each-All f xs).1 rest),
)
