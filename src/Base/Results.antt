-- ===== src/Base/Results.antt =====
-- Go's `error` results, and calls that read and write a state. What was written before an error
-- stays written, so the state comes back beside the error too.
use Prim.Native.String.{String}
use mathlib.Core.Path.{◌≡◌, refl}
use mathlib.Core.Logic.{◌⊎◌, inl, inr}
use mathlib.Core.Bool.{Bool, true, false}
use yourz_gift.Base.Int.{ℤ}

-- The sentinel errors that the code compares with `errors.Is`, errors that carry a text, and
-- the failures of the storage.
pub data Error : Type 0 where
  record_not_found redis_nil : Error
  forbidden_gift_access gift_list_not_public : Error
  friend_self friend_user_not_found friend_service_config : Error
  insufficient_quantity : (remaining : ℤ) → Error
  otp_invalid otp_too_many_attempt otp_not_configured otp_delivery_failed : Error
  reset_invalid reset_not_configured reset_delivery_failed : Error
  throttled : (reason : String) (retry_after : ℤ) → Error
  invalid_column invalid_order : String → Error
  message : String → Error
  fault : (operation : String) → Error

pub data Result {ℓ} (A : Type ℓ) : Type ℓ where
  ok : A → Result A
  err : Error → Result A

abbrev pub Exec {ℓ} : Type ℓ → Type ℓ → Type ℓ
Exec S A = S → Result A × S

module _ {ℓ} {S A : Type ℓ} where
  abbrev pub pure : A → Exec S A
  pure a s = (ok a, s)

  abbrev pub raise : Error → Exec S A
  raise e s = (err e, s)

  -- A read: the state stays as it is.
  abbrev pub gets : (S → Result A) → Exec S A
  gets f s = (f s, s)

module _ {ℓ} {S A B : Type ℓ} where
  abbrev pub continue : Result A → (A → Exec S B) → Exec S B
  continue (ok a) f s = f a s
  continue (err e) f s = (err e, s)

  infixl 5 ◌>>=◌ ◌>>◌
  abbrev pub ◌>>=◌ : Exec S A → (A → Exec S B) → Exec S B
  ◌>>=◌ m f s = continue (m s).0 f (m s).1

  abbrev pub ◌>>◌ : Exec S A → Exec S B → Exec S B
  m >> n = m >>= λ _. n

abbrev pub guard : {S : Type 0} → Bool → Error → Exec S (Unit {0})
guard true e s = (ok tt, s)
guard false e s = (err e, s)

pub Result-cases {ℓ} :
    {A : Type ℓ} (r : Result A) → ((a : A) × (r ≡ ok a)) ⊎ ((e : Error) × (r ≡ err e))
Result-cases (ok a) = inl (a, refl)
Result-cases (err e) = inr (e, refl)

-- A chain that ends well: its first part ends well, and the rest goes on from there.
pub bind-ok {ℓ} :
    {S A B : Type ℓ} (m : Exec S A) (f : A → Exec S B) (s s' : S) (b : B)
    → (m >>= f) s ≡ (ok b, s')
    → (a : A) × ((m s).0 ≡ ok a) × (f a (m s).1 ≡ (ok b, s'))
bind-ok {A = A} m f s s' b e = split (m s).0 refl e
  where
    split :
        (r : Result A)
        → (m s).0 ≡ r
        → continue r f (m s).1 ≡ (ok b, s')
        → (a : A) × ((m s).0 ≡ ok a) × (f a (m s).1 ≡ (ok b, s'))
    split (ok a) same k = (a, same, k)
    split (err x) same k = absurd (cc)

-- A check that a chain passed.
pub guard-ok :
    {S B : Type 0} (b : Bool) (x : Error) (m : Exec S B) (s s' : S) (a : B)
    → (guard b x >> m) s ≡ (ok a, s')
    → (b ≡ true) × (m s ≡ (ok a, s'))
guard-ok true x m s s' a e = (refl, e)
guard-ok false x m s s' a e = absurd (cc)

-- What the first part of a chain keeps of the state, and the rest after it, the chain keeps.
pub bind-keeps :
    {S A B : Type 0} (Q : S → Type 0) (m : Exec S A) (f : A → Exec S B) (s : S)
    → Q (m s).1
    → ((a : A) → (m s).0 ≡ ok a → Q (f a (m s).1).1)
    → Q ((m >>= f) s).1
bind-keeps {A = A} Q m f s first rest = split (m s).0 refl
  where
    split : (r : Result A) → (m s).0 ≡ r → Q (continue r f (m s).1).1
    split (ok a) same = rest a same
    split (err x) same = first

-- The same of a check and what follows it.
pub guard-keeps :
    {S B : Type 0} (Q : S → Type 0) (b : Bool) (x : Error) (m : Exec S B) (s : S)
    → Q s
    → (b ≡ true → Q (m s).1)
    → Q ((guard b x >> m) s).1
guard-keeps Q true x m s refused passed = passed refl
guard-keeps Q false x m s refused passed = refused
