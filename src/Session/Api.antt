-- ===== src/Session/Api.antt =====
-- Requests to the server and their errors (frontend/src/services/api.ts).
use Prim.Native.Char.{Char, code}
use Prim.Native.String
use bubllio_crm.Prelude.{
  sym, ℕ, String, Bool, true, false, not, ◌&&◌, ◌||◌, Option, none, some, List, [], ◌∷◌, leb,
  nat_eq, if◌then◌else◌, ◌≡◌, refl, arith, Bool-cases, inl, inr,
}
use bubllio_crm.Js.Value.{Value, Fields, end, field, obj}
use bubllio_crm.Js.Text.{truthy, join, is_prefix}
use bubllio_crm.Js.Numbers.{Numbers, to_string}
use bubllio_crm.Session.Store.{AuthState}

-- value.replace(/\/$/, '')
abbrev pub without_last_slash : String → String
without_last_slash String.[] = ""
without_last_slash (String.◌∷◌ c s) =
    let rest = without_last_slash s in
    if nat_eq (code c) 47 && not (truthy s) then "" else String.◌∷◌ c rest

-- /[?#\\]/.test(value)
abbrev pub has_reserved : String → Bool
has_reserved String.[] = false
has_reserved (String.◌∷◌ c s) =
    (nat_eq (code c) 63 || nat_eq (code c) 35 || nat_eq (code c) 92) || has_reserved s

-- `none` where the code throws.
unfoldable pub api_base : String → Option String
api_base value =
    if not (is_prefix "/" value) || (is_prefix "//" value || has_reserved value)
    then none
    else some (without_last_slash value)

has_reserved-without_last_slash :
    (s : String) → has_reserved s ≡ false → has_reserved (without_last_slash s) ≡ false
has_reserved-without_last_slash String.[] h = refl
has_reserved-without_last_slash (String.◌∷◌ c s) h =
    let rest = has_reserved-without_last_slash s in
    elim (Bool-cases (nat_eq (code c) 47 && not (truthy s))) [
      | inl last ↦ rw last refl
      | inr inside ↦ rw inside (ground arith)
    ]

prefix-without_last_slash :
    (c d : Char) (s : String)
    → is_prefix "//" (String.◌∷◌ c (String.◌∷◌ d s)) ≡ false
    → is_prefix "/" (String.◌∷◌ c (String.◌∷◌ d s)) ≡ true
    → (is_prefix "//" (without_last_slash (String.◌∷◌ c (String.◌∷◌ d s))) ≡ false)
      × (is_prefix "/" (without_last_slash (String.◌∷◌ c (String.◌∷◌ d s))) ≡ true)
prefix-without_last_slash c d s two one = (ground arith, ground arith)

accepted : (b : Bool) (x y : String) → (if b then none else some x) ≡ some y → (b ≡ false) × (x ≡ y)
accepted true x y e = absurd (cc e)
accepted false x y e = (refl, cc e)

-- The accepted paths by their first characters.
path_of_accepted :
    (value : String)
    → is_prefix "/" value ≡ true
    → is_prefix "//" value ≡ false
    → (is_prefix "//" (without_last_slash value) ≡ false)
      × (truthy (without_last_slash value) ≡ true → is_prefix "/" (without_last_slash value) ≡ true)
path_of_accepted String.[] one two = absurd (cc one)
path_of_accepted (String.◌∷◌ c String.[]) one two =
    elim (Bool-cases (nat_eq (code c) 47 && not (truthy ""))) [
      | inl last ↦ rw last (refl, λ h. absurd (cc h))
      | inr inside ↦ rw inside (ground arith, λ h. one)
    ]
path_of_accepted (String.◌∷◌ c (String.◌∷◌ d s)) one two =
    let (not_two, still_one) = prefix-without_last_slash c d s two one in (not_two, λ h. still_one)

-- A base path that is accepted is empty or a path of the same origin, without a query, a fragment
-- or a backslash: it starts with one slash and not with two.
pub api_base_sound :
    (value base : String)
    → api_base value ≡ some base
    → (has_reserved base ≡ false)
      × (is_prefix "//" base ≡ false)
      × (truthy base ≡ true → is_prefix "/" base ≡ true)
unfolding api_base
api_base_sound value base h =
    let (guard, same) =
      accepted (not (is_prefix "/" value) || (is_prefix "//" value || has_reserved value))
        (without_last_slash value) base h in
    let (one_slash, starts) = path_of_accepted value (ground arith) (ground arith) in
    rw (sym same) ((has_reserved-without_last_slash value (ground arith), one_slash, starts))

module _ (numbers : Numbers) (joined : Fields numbers.Num → Option String) where
  open numbers use {Num}

  -- Array.isArray(value) ? value.join(' ') : String(value), where `joined` gives the text of an
  -- array, and `none` of what is no array.
  abbrev pub value_text : Value Num → String
  value_text (obj text fields) = elim (joined fields) [ none ↦ text | some s ↦ s ]
  value_text v = to_string numbers v

  abbrev pub entry_texts : Fields Num → List String
  entry_texts end = []
  entry_texts (field k v more) = String.◌++◌ k (String.◌++◌ ": " (value_text v)) ∷ entry_texts more

  abbrev body_message : Value Num → String
  body_message (obj text fields) = join " · " (entry_texts fields)
  body_message v = "The request could not be completed."

  unfoldable pub message_for : ℕ → Value Num → String
  message_for status body =
      if nat_eq status 401 || nat_eq status 403
      then "Sign-in or permission check failed. Please sign in again or contact your workspace owner."
      else (if nat_eq status 404
          then "This resource is unavailable or you do not have access."
          else (if leb 500 status
              then "The server could not complete this request. Please try again."
              else body_message body))

  -- What a failed call of axios throws: its error with the response, if there was one, or
  -- something else, as a schema that refuses the data does.
  pub data Thrown (E : Type 0) : Type 0 where
    axios_error : Option (ℕ × Value Num) → Thrown E
    other_error : E → Thrown E

  pub data RequestError (E : Type 0) : Type 0 where
    api_error : (status : ℕ) → (message : String) → RequestError E
    rethrown : E → RequestError E

  pub data Result (E T : Type 0) : Type 0 where
    ok : T → Result E T
    error : E → Result E T

  abbrev request_error : {E : Type 0} → Thrown E → RequestError E
  request_error (axios_error none) = api_error 0 (message_for 0 Value.undefined)
  request_error (axios_error (some (status, body))) = api_error status (message_for status body)
  request_error (other_error e) = rethrown e

  module _ {E T : Type 0} where
    abbrev parse_data :
        Option (Value Num → Result E T) → (Value Num → T) → Value Num → Result (RequestError E) T
    parse_data none cast data_ = ok (cast data_)
    parse_data (some parse) cast data_ = elim (parse data_) [
      | ok t ↦ ok t
      | error e ↦ error (rethrown e)
    ]

    -- `request`, given the outcome of `apiClient.request`; `cast` is the cast of the data to the
    -- type of the result where there is no schema.
    unfoldable pub request :
        Option (Value Num → Result E T)
        → (Value Num → T)
        → Result (Thrown E) (Value Num)
        → Result (RequestError E) T
    request schema cast (ok data_) = parse_data schema cast data_
    request schema cast (error thrown) = error (request_error thrown)

  -- options.method ?? (options.body === undefined ? 'GET' : 'POST')
  unfoldable pub method_of : Option String → Option (Value Num) → String
  method_of (some method) body = method
  method_of none none = "GET"
  method_of none (some body) = "POST"

-- The request interceptor: the `Authorization` header, if one is set.
unfoldable pub authorization : AuthState → Option String
authorization s = elim s.access_token [
  | none ↦ none
  | some token ↦ if truthy token then some (String.◌++◌ "Bearer " token) else none
]
