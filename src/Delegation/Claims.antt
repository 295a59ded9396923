-- ===== src/Delegation/Claims.antt =====
-- `DelegationClaims`, and the conversions with which `verify_token` builds it from a payload.
use agent_trust_fabric.Prelude.{true, false, none, some, List, [], ◌∷◌, String}
use agent_trust_fabric.Prelude.Int.{ℤ}
use agent_trust_fabric.Errors.{Result, ok, err, ◌>>=◌, or_raise, value_error, type_error}
use agent_trust_fabric.Json.{
  Json, Fields, null, bool, num, str, arr, obj, end, dict, items, get, subscript, iterate, as_int,
  or_else, truthy,
}
use agent_trust_fabric.Json.Text.{decimal_text}
use agent_trust_fabric.Runtime.{Runtime}

-- `iss`, `sub`, the scopes and `audit_uri` are kept as the payload has them.
pub record DelegationClaims : Type 0 where
  pub iss : Json
  pub sub : Json
  pub scope : List Json
  pub exp : ℤ
  pub nbf : ℤ
  pub iat : ℤ
  pub jti : String
  pub purpose : String
  pub constraints : Fields
  pub audit_uri : Json

unfoldable pub to_dict : DelegationClaims → Json
to_dict c = dict (
    ("iss", c.iss)
    ∷ ("sub", c.sub)
    ∷ ("scope", arr (items c.scope))
    ∷ ("exp", num c.exp)
    ∷ ("nbf", num c.nbf)
    ∷ ("iat", num c.iat)
    ∷ ("jti", str c.jti)
    ∷ ("purpose", str c.purpose)
    ∷ ("constraints", obj c.constraints)
    ∷ ("audit_uri", c.audit_uri)
    ∷ [])

module _ ⦃rt : Runtime⦄ where
  -- `str(v)`.
  unfoldable pub py_str : Json → String
  unfolding decimal_text
  py_str null = "None"
  py_str (bool true) = "True"
  py_str (bool false) = "False"
  py_str (num z) = decimal_text z
  py_str (str s) = s
  py_str v = rt.str_of_container v

  int_other : Json → Result ℤ
  int_other (str s) = or_raise (rt.int_of_str s) value_error
  int_other _ = err type_error

  -- `int(v)`.
  unfoldable pub py_int : Json → Result ℤ
  unfolding int_other
  py_int v = elim (as_int v) [ some z ↦ ok z | none ↦ int_other v ]

  -- `dict(v or {})`.
  unfoldable pub py_dict : Json → Result Fields
  py_dict (obj fs) = ok fs
  py_dict v = elim (truthy v) [ false ↦ ok end | true ↦ rt.dict_of v ]

  -- The last statement of `verify_token`.
  unfoldable pub build_claims : Json → Result DelegationClaims
  unfolding py_str py_int py_dict
  build_claims payload = do
    iss ← subscript payload "iss"
    sub ← subscript payload "sub"
    scope ← iterate (← subscript payload "scope")
    exp ← py_int (← subscript payload "exp")
    nbf ← py_int (← subscript payload "nbf")
    iat ← py_int (← subscript payload "iat")
    jti ← subscript payload "jti"
    purpose ← subscript payload "purpose"
    found ← get payload "constraints"
    constraints ← py_dict (or_else found null)
    audit_uri ← get payload "audit_uri"
    ok (record {
      iss = iss;
      sub = sub;
      scope = scope;
      exp = exp;
      nbf = nbf;
      iat = iat;
      jti = py_str jti;
      purpose = py_str purpose;
      constraints = constraints;
      audit_uri = or_else audit_uri null;
    })
