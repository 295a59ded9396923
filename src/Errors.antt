-- ===== src/Errors.antt =====
-- reference/py/src/atf/errors.py: the exception classes, with those of Python's library and of the
-- third-party packages that the code catches or lets through. An exception is its class; the
-- message is not modelled.
use agent_trust_fabric.Prelude.{
  ℕ, zero, suc, ◌≡◌, refl, ap, ◌∙◌, ◌⊎◌, inl, inr, Bool, not, true, false, Option, none, some,
}

pub data Exc : Type 0 where
  atf_error identity_error : Exc
  manifest_error manifest_invalid_signature : Exc
  delegation_error token_expired token_not_yet_valid token_insufficient_scope : Exc
  token_invalid_signature token_replay : Exc
  outcome_error outcome_invalid_signature outcome_schema_mismatch : Exc
  audit_error cross_sign_failed : Exc
  key_error index_error type_error attribute_error value_error overflow_error : Exc
  json_decode_error binascii_error invalid_signature : Exc
  integrity_error programming_error usage_error transport_error http_status_error : Exc

-- The class that a class extends; `none` for the children of `Exception`.
unfoldable pub base : Exc → Option Exc
base identity_error = some atf_error
base manifest_error = some atf_error
base manifest_invalid_signature = some manifest_error
base delegation_error = some atf_error
base token_expired = some delegation_error
base token_not_yet_valid = some delegation_error
base token_insufficient_scope = some delegation_error
base token_invalid_signature = some delegation_error
base token_replay = some delegation_error
base outcome_error = some atf_error
base outcome_invalid_signature = some outcome_error
base outcome_schema_mismatch = some outcome_error
base audit_error = some atf_error
base cross_sign_failed = some audit_error
base json_decode_error = some value_error
base binascii_error = some value_error
base _ = none

-- Climbs from a class to its bases, at most so many steps.
climbs_to_atf : ℕ → Exc → Bool
climbs_to_atf n atf_error = true
climbs_to_atf zero e = false
climbs_to_atf (suc n) e = elim (base e) [ none ↦ false | some b ↦ climbs_to_atf n b ]

-- `except ATFError`: no class is more than two steps below it.
unfoldable pub is_atf_error : Exc → Bool
unfolding climbs_to_atf base
is_atf_error e = climbs_to_atf 2 e

-- What a call of a function that may raise ends in.
pub data Result {ℓ} (A : Type ℓ) : Type ℓ where
  ok : A → Result A
  err : Exc → Result A

infixl 5 ◌>>=◌ ◌>>◌
abbrev pub ◌>>=◌ {κ ι} : {V : Type κ} {W : Type ι} → Result V → (V → Result W) → Result W
err e >>= next = err e
ok v >>= next = next v

abbrev pub ◌>>◌ {κ} : {W : Type κ} → Result (Unit {0}) → Result W → Result W
check >> rest = check >>= λ _. rest

-- `if c: raise e`.
abbrev pub raise_if : Bool → Exc → Result (Unit {0})
raise_if true e = err e
raise_if false e = ok tt

abbrev pub or_raise {ℓ} : {A : Type ℓ} → Option A → Exc → Result A
or_raise none e = err e
or_raise (some a) e = ok a

-- `try: … except Exception as e: raise c`.
abbrev pub raise_as {ℓ} : {A : Type ℓ} → Exc → Result A → Result A
raise_as c (ok a) = ok a
raise_as c (err e) = err c

-- `try: … except KeyError: raise c`.
abbrev pub key_error_as {ℓ} : {A : Type ℓ} → Exc → Result A → Result A
key_error_as c (err key_error) = err c
key_error_as c r = r

pub Result-cases {ℓ} :
    {A : Type ℓ} (r : Result A) → ((a : A) × (r ≡ ok a)) ⊎ ((e : Exc) × (r ≡ err e))
Result-cases (ok a) = inl (a, refl)
Result-cases (err e) = inr (e, refl)

-- Inversion of a successful bind.
pub >>=-eq-ok {κ ι} :
    {V : Type κ} {W : Type ι} (r : Result V) (next : V → Result W) {w : W}
    → (r >>= next) ≡ ok w
    → (v : V) × (r ≡ ok v) × (next v ≡ ok w)
>>=-eq-ok (err e) next h = absurd (cc)
>>=-eq-ok (ok v) next h = (v, refl, h)

-- The same, handing what it finds to the rest of a proof.
pub bind_ok {κ ι ρ} :
    {V : Type κ} {W : Type ι} {P : Type ρ} (r : Result V) (next : V → Result W) {w : W}
    → (r >>= next) ≡ ok w
    → ((v : V) → r ≡ ok v → next v ≡ ok w → P)
    → P
bind_ok (err e) next h k = absurd (cc)
bind_ok (ok v) next h k = k v refl h

-- A step that succeeds, and the rest at its value.
pub >>=-ok {κ ι} :
    {V : Type κ} {W : Type ι} (r : Result V) (next : V → Result W) {v : V} {w : Result W}
    → r ≡ ok v
    → next v ≡ w
    → (r >>= next) ≡ w
>>=-ok r next e h = ap (λ m. m >>= next) e ∙ h

pub raise_if-eq-ok : (b : Bool) (e : Exc) → raise_if b e ≡ ok tt → b ≡ false
raise_if-eq-ok true e h = cc
raise_if-eq-ok false e h = refl

pub or_raise-eq-ok {ℓ} :
    {A : Type ℓ} (o : Option A) (e : Exc) {a : A} → or_raise o e ≡ ok a → o ≡ some a
or_raise-eq-ok none e h = cc
or_raise-eq-ok (some b) e h = cc

pub raise_as-eq-ok {ℓ} :
    {A : Type ℓ} (e : Exc) (r : Result A) {a : A} → raise_as e r ≡ ok a → r ≡ ok a
raise_as-eq-ok e (ok b) h = h
raise_as-eq-ok e (err d) h = cc

pub not-eq-false : (b : Bool) → not b ≡ false → b ≡ true
not-eq-false true h = refl
not-eq-false false h = cc

-- Two steps in a row, the first two given as one.
pub through {ℓ κ ι} :
    {A : Type ℓ} {B : Type κ} {C : Type ι} (m : Result A) (f : A → Result B) (k : B → Result C)
    {b : B} {r : Result C}
    → (m >>= f) ≡ ok b
    → k b ≡ r
    → (m >>= λ a. f a >>= k) ≡ r
through (ok a) f k h e = rw h e
through (err x) f k h e = absurd (cc)

pub ok-injective {ℓ} : {A : Type ℓ} {a b : A} → ok a ≡ ok b → a ≡ b
ok-injective h = cc h

pub key_error_as-eq-ok {ℓ} :
    {A : Type ℓ} (c : Exc) (r : Result A) {a : A} → key_error_as c r ≡ ok a → r ≡ ok a
key_error_as-eq-ok c (ok b) h = h
key_error_as-eq-ok c (err key_error) h = absurd (cc)
key_error_as-eq-ok c (err _) h = h
