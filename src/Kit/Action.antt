-- ===== src/Kit/Action.antt =====
-- A Go call on shared state: it returns a value or an error, or panics, and the state that it
-- reached comes back in every case.
use challenge_senior.Prelude.{Bool, Option, none, some, if◌then◌else◌, ◌≡◌, refl, ◌⊎◌, inl, inr}
use challenge_senior.Kit.Errors.{Error, sentinel, join, invalid}

pub data Result {ℓ} (A : Type ℓ) : Type ℓ where
  ok : A → Result A
  err : Error → Result A
  panic : Result A

abbrev pub Action : Type 0 → Type 0 → Type 0
Action S A = S → Result A × S

module _ {S A : Type 0} where
  abbrev pub pure : A → Action S A
  pure a s = (ok a, s)

  abbrev pub raise : Error → Action S A
  raise e s = (err e, s)

  abbrev pub give : Result A → Action S A
  give r s = (r, s)

-- `if err != nil { return err }`
abbrev pub check : {S : Type 0} → Option Error → Action S (Unit {0})
check none s = (ok tt, s)
check (some e) s = (err e, s)

-- `errors.Join(db.ErrInvalid, err)` where `err != nil`
abbrev pub join_invalid : Option Error → Option Error
join_invalid none = none
join_invalid (some e) = some (join (sentinel invalid) e)

abbrev pub raise_if : {S : Type 0} → Bool → Error → Action S (Unit {0})
raise_if c e s = (if c then err e else ok tt, s)

abbrev pub modify : {S : Type 0} → (S → S) → Action S (Unit {0})
modify f s = (ok tt, f s)

abbrev pub gets : {S A : Type 0} → (S → A) → Action S A
gets f s = (ok (f s), s)

abbrev pub continue {ℓ} :
    {S A : Type 0} {B : Type ℓ} → Result A → S → (A → S → Result B × S) → Result B × S
continue (ok a) s f = f a s
continue (err e) s f = (err e, s)
continue panic s f = (panic, s)

infixl 5 ◌>>=◌ ◌>>◌
abbrev pub ◌>>=◌ : {S A B : Type 0} → Action S A → (A → Action S B) → Action S B
◌>>=◌ m f s = let (r, s') = m s in continue r s' f

abbrev pub ◌>>◌ : {S A B : Type 0} → Action S A → Action S B → Action S B
m >> k = m >>= λ _. k

-- `_ = f(...)`: the error is dropped, a panic is not.
abbrev pub dropped : {A : Type 0} → Result A → Result (Unit {0})
dropped (ok a) = ok tt
dropped (err e) = ok tt
dropped panic = panic

abbrev pub ignore : {S A : Type 0} → Action S A → Action S (Unit {0})
ignore m s = let (r, s') = m s in (dropped r, s')

-- Run a call on a part of the state.
abbrev pub on : {S T A : Type 0} → (T → S) → (T → S → T) → Action S A → Action T A
on get put m t = let (r, s) = m (get t) in (r, put t s)

pub Result-cases {ℓ} :
    {A : Type ℓ} (r : Result A) → ((a : A) × (r ≡ ok a)) ⊎ ((e : Error) × (r ≡ err e)) ⊎ (r ≡ panic)
Result-cases (ok a) = inl (a, refl)
Result-cases (err e) = inr (inl (e, refl))
Result-cases panic = inr (inr refl)
