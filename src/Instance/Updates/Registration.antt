-- ===== src/Instance/Updates/Registration.antt =====
-- The registration of update handlers.
use temporalio_sdk_python.Common.{
  ℕ, false, Option, none, some, String, ◌≡◌, refl, ap, sym, subst, string_eq, ℕ_eq, option_eq,
  arith, if◌then◌else◌, ◌==◌, inl, inr, Bool-cases,
}
use temporalio_sdk_python.Common.Dict.{Dict, get, put, get-put}
use temporalio_sdk_python.Common.Result.{Result, ok, err}
use temporalio_sdk_python.Exceptions.{Exc}
use temporalio_sdk_python.Instance.State.{
  Instance, HandlerDefn, Action, ◌>>=◌, modify, lift, raise_if,
}
use temporalio_sdk_python.Instance.Guards.{IsWritable, assert-IsWritable}
use temporalio_sdk_python.Instance.Handlers.{has_name}
use temporalio_sdk_python.Instance.Signals.{find_handler, Handler}
use temporalio_sdk_python.Instance.Updates.{
  has_dynamic_types, vararg_error, new_update_definition, workflow_set_update_handler,
}

-- Which handler an update of a name gets, once a handler is set beside those there were: a handler with a name gets
-- its own updates, and one without gets those that have no handler of their own.
abbrev pub routed :
    Option String → HandlerDefn → Dict (Option String) HandlerDefn → String → Option HandlerDefn
routed (some name) defn handlers update =
    if name == update then some defn else find_handler handlers update
routed none defn handlers update = elim (get handlers (some update)) [
  | some own ↦ some own
  | none ↦ some defn
]

-- A definition that is refused changes nothing, and one that is made is registered.
abbrev pub Registers :
    Option String → Instance → Result Exc HandlerDefn → Result Exc (Unit {0}) × Instance → Type 0
Registers name s (err e) p = p ≡ (err e, s)
Registers name s (ok defn) p =
    (p.0 ≡ ok tt)
    × (record p.1 { updates = s.updates } ≡ s)
    × ((update : String) → find_handler p.1.updates update ≡ routed name defn s.updates update)

routed_lem :
    (name : Option String) (defn : HandlerDefn) (handlers : Dict (Option String) HandlerDefn)
    (update : String)
    → find_handler (put handlers name defn) update ≡ routed name defn handlers update
routed_lem none defn handlers update =
    ground (arith, get-put handlers none (some update) defn, get-put handlers none none defn)
routed_lem (some name) defn handlers update =
    ground (
      arith,
      get-put handlers (some name) (some update) defn,
      get-put handlers (some name) none defn,
    )

new_update_definition_takes_no_vararg :
    (name : Option String) (h : Handler) (validator : Option ℕ) (defn : HandlerDefn)
    → new_update_definition name h validator ≡ ok defn
    → defn.dynamic_vararg ≡ false
new_update_definition_takes_no_vararg name h validator defn e = elim (Bool-cases (has_name name)) [
  | inl a ↦ ground arith
  | inr a ↦ elim (Bool-cases h.dynamic_vararg) [
    | inl b ↦ ground arith
    | inr b ↦ elim (Bool-cases (has_dynamic_types h.arg_types)) [
      | inl c ↦ ground arith
      | inr c ↦ ground arith
    ]
  ]
]

abbrev register : Option String → HandlerDefn → Action Unit
register name defn = modify (λ s. record s { updates = put s.updates name defn }) >>= λ _.
    raise_if defn.dynamic_vararg vararg_error

register-Registers :
    (name : Option String) (r : Result Exc HandlerDefn) (s : Instance)
    → ((defn : HandlerDefn) → r ≡ ok defn → defn.dynamic_vararg ≡ false)
    → Registers name s r ((lift r >>= register name) s)
register-Registers name (err e) s k = refl
register-Registers name (ok defn) s k =
    let t = record s { updates = put s.updates name defn } in
    subst (Registers name s (ok defn)) (ap (λ b. raise_if b vararg_error t) (sym (k defn refl)))
      (refl, refl, λ update. routed_lem name defn s.updates update)

-- Setting an update handler either registers it or changes nothing: where nothing forbids it, a handler that cannot be
-- defined gives its error and leaves the instance as it was, and one that can be is registered, and from then on gets the
-- updates of its name or, without a name, those that have no handler of their own, while all else stays as it was.
pub set_update_handler-Registers :
    (name : Option String) (h : Handler) (validator : Option ℕ) (s : Instance)
    → IsWritable s
    → Registers name s
        (new_update_definition name h validator)
        (workflow_set_update_handler name (some h) validator s)
unfolding workflow_set_update_handler
set_update_handler-Registers name h validator s w =
    let r = new_update_definition name h validator in
    subst (Registers name s r)
      (sym (
        ap
          (λ (p : Result Exc (Unit {0}) × Instance).
            ◌>>=◌ (λ _. p) (λ _. lift r >>= register name) s)
          (assert-IsWritable "set update handler" false s w)))
      (register-Registers name r s (new_update_definition_takes_no_vararg name h validator))
