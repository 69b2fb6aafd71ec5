-- ===== src/Store/Monad.antt =====
-- A handler of the program as a function on the store. A throw keeps the writes made before it.
use bapc_vpn_and_digital_sec.Base.{
  ◌+◌, String, Bool, true, false, List, [], ◌∷◌, Option, none, some,
}
use bapc_vpn_and_digital_sec.Domain.{Error}
use bapc_vpn_and_digital_sec.Store.{Store}

pub data Result {ℓ} (A : Type ℓ) : Type ℓ where
  ok : A → Result A
  err : Error → Result A

abbrev pub M : Type 0 → Type 0
M A = Store → Result A × Store

abbrev pub then_run : {A B : Type 0} → Result A × Store → (A → M B) → Result B × Store
then_run (ok a, s) f = f a s
then_run (err e, s) f = (err e, s)

infixl 5 ◌>>=◌ ◌>>◌
abbrev pub ◌>>=◌ : {A B : Type 0} → M A → (A → M B) → M B
◌>>=◌ m f s = then_run (m s) f

abbrev pub ◌>>◌ : {A B : Type 0} → M A → M B → M B
◌>>◌ m k s = then_run (m s) (λ _. k)

abbrev pub return : {A : Type 0} → A → M A
return a s = (ok a, s)

abbrev pub throw : {A : Type 0} → Error → M A
throw e s = (err e, s)

abbrev pub gets : {A : Type 0} → (Store → A) → M A
gets f s = (ok (f s), s)

abbrev pub modify : (Store → Store) → M (Unit {0})
modify f s = (ok tt, f s)

abbrev pub throw_if : Bool → Error → M (Unit {0})
throw_if true e s = (err e, s)
throw_if false e s = (ok tt, s)

abbrev pub or_throw : {A : Type 0} → Option A → Error → M A
or_throw none e s = (err e, s)
or_throw (some a) e s = (ok a, s)

-- `randomUUID()` and `ids.next()`: the next identifier of the supply.
abbrev pub fresh_id : M String
fresh_id s = (ok (s.uuid s.issued), record s { issued = s.issued + 1 })

-- `for … of` over an array, one awaited call after another
abbrev pub for_each {ℓ} : {A : Type ℓ} → List A → (A → M (Unit {0})) → M (Unit {0})
for_each [] f s = (ok tt, s)
for_each (x ∷ xs) f s = then_run (f x s) (λ _. for_each xs f)
