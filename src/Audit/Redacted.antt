-- ===== src/Audit/Redacted.antt =====
-- What the audit log keeps of a body.
use sms_app.Base.{
  String, Bool, true, false, ◌&&◌, Option, none, some, ◌≡◌, refl, arith, ◌==◌, string_eq, eq_iff,
  if◌then◌else◌, ap, Bool-cases, inl, inr, subst,
}
use sms_app.Audit.{
  Json, Items, Fields, null, bool, number, text, array, object, nil, cons, end, field, sanitize,
  sanitize_items, sanitize_fields, is_sensitive, redacted, AuditLog, Request, intercept, log,
  details_of, truthy_json,
}

abbrev pub is_redacted : Json → Bool
is_redacted (text t) = t == "[REDACTED]"
is_redacted _ = false

-- No value under a sensitive key, at any depth, but the mark.
unfoldable mutual
  unfolding is_sensitive

  pub is_clean : Json → Bool
  is_clean null = true
  is_clean (bool b) = true
  is_clean (number n) = true
  is_clean (text t) = true
  is_clean (array items) = are_clean items
  is_clean (object fields) = fields_clean fields

  pub are_clean : Items → Bool
  are_clean nil = true
  are_clean (cons j rest) = is_clean j && are_clean rest

  pub fields_clean : Fields → Bool
  fields_clean end = true
  fields_clean (field key j rest) =
      (if is_sensitive key then is_redacted j else is_clean j) && fields_clean rest

mutual
  unfolding sanitize is_clean

  sanitize-is_clean : (j : Json) → is_clean (sanitize j) ≡ true
  sanitize-is_clean null = refl
  sanitize-is_clean (bool b) = refl
  sanitize-is_clean (number n) = refl
  sanitize-is_clean (text t) = refl
  sanitize-is_clean (array items) = sanitize_items-are_clean items
  sanitize-is_clean (object fields) = sanitize_fields-clean fields

  sanitize_items-are_clean : (items : Items) → are_clean (sanitize_items items) ≡ true
  sanitize_items-are_clean nil = refl
  sanitize_items-are_clean (cons j rest) =
      rw (sanitize-is_clean j, sanitize_items-are_clean rest) refl

  sanitize_fields-clean : (fields : Fields) → fields_clean (sanitize_fields fields) ≡ true
  sanitize_fields-clean end = refl
  sanitize_fields-clean (field key j rest) = elim (Bool-cases (is_sensitive key)) [
    | inl h ↦ rw (h, sanitize_fields-clean rest) refl
    | inr h ↦ rw (h, sanitize-is_clean j, sanitize_fields-clean rest) refl
  ]

is_redacted-eq : (j : Json) → is_redacted j ≡ true → j ≡ redacted
is_redacted-eq (text t) h = ap text ((eq_iff t "[REDACTED]").0 h)
is_redacted-eq null h = cc
is_redacted-eq (bool b) h = cc
is_redacted-eq (number n) h = cc
is_redacted-eq (array items) h = cc
is_redacted-eq (object fields) h = cc

fields-rest :
    (key : String) (j : Json) (rest : Fields)
    → fields_clean (field key j rest) ≡ true
    → fields_clean rest ≡ true
unfolding is_clean
fields-rest key j rest h = ground arith

fields-marked :
    (key : String) (j : Json) (rest : Fields)
    → is_sensitive key ≡ true
    → fields_clean (field key j rest) ≡ true
    → j ≡ redacted
unfolding is_clean
fields-marked key j rest s h = ground (arith, is_redacted-eq j)

fields-plain :
    (key : String) (j : Json) (rest : Fields)
    → is_sensitive key ≡ false
    → fields_clean (field key j rest) ≡ true
    → is_clean j ≡ true
unfolding is_clean
fields-plain key j rest s h = ground arith

marked_field :
    (key : String) (j : Json) (rest : Fields)
    → is_sensitive key ≡ true
    → j ≡ redacted
    → sanitize_fields rest ≡ rest
    → sanitize_fields (field key j rest) ≡ field key j rest
unfolding sanitize
marked_field key j rest s m r = rw (s, m, r) refl

plain_field :
    (key : String) (j : Json) (rest : Fields)
    → is_sensitive key ≡ false
    → sanitize j ≡ j
    → sanitize_fields rest ≡ rest
    → sanitize_fields (field key j rest) ≡ field key j rest
unfolding sanitize
plain_field key j rest s m r = rw (s, m, r) refl

-- A value that is clean stays as it is.
mutual
  unfolding sanitize is_clean

  sanitize-keeps : (j : Json) → is_clean j ≡ true → sanitize j ≡ j
  sanitize-keeps null h = refl
  sanitize-keeps (bool b) h = refl
  sanitize-keeps (number n) h = refl
  sanitize-keeps (text t) h = refl
  sanitize-keeps (array items) h = ap array (sanitize_items-keeps items h)
  sanitize-keeps (object fields) h = ap object (sanitize_fields-keeps fields h)

  sanitize_items-keeps : (items : Items) → are_clean items ≡ true → sanitize_items items ≡ items
  sanitize_items-keeps nil h = refl
  sanitize_items-keeps (cons j rest) h = ground (arith, sanitize-keeps j, sanitize_items-keeps rest)

  sanitize_fields-keeps :
      (fields : Fields) → fields_clean fields ≡ true → sanitize_fields fields ≡ fields
  sanitize_fields-keeps end h = refl
  sanitize_fields-keeps (field key j rest) h = elim (Bool-cases (is_sensitive key)) [
    | inl s ↦
        marked_field key j rest s (fields-marked key j rest s h)
          (sanitize_fields-keeps rest (fields-rest key j rest h))
    | inr s ↦
        plain_field key j rest s (sanitize-keeps j (fields-plain key j rest s h))
          (sanitize_fields-keeps rest (fields-rest key j rest h))
  ]

details_of-clean :
    (body : Option Json) (j : Json)
    → details_of body ≡ some j
    → (is_clean j ≡ true) × (sanitize j ≡ j)
details_of-clean none j h = cc
details_of-clean (some b) j h = elim (Bool-cases (truthy_json b)) [
  | inl t ↦
      let e : sanitize b ≡ j = cc in
      let c : is_clean j ≡ true = subst (λ v. is_clean v ≡ true) e (sanitize-is_clean b) in
      (c, sanitize-keeps j c)
  | inr t ↦ cc
]

written-details :
    (org : Option String) (r : Request) (answer_id : Option String) (row : AuditLog)
    → intercept org r answer_id ≡ some row
    → row.details ≡ details_of (details_of r.body)
unfolding intercept log
written-details none r answer_id row h = cc
written-details (some org) r answer_id row h = ground arith

-- In every row that a request leaves in the log, the details hold nothing under a sensitive key, at any
-- depth, but the mark, and sanitizing them once more, as the service does with those of the interceptor,
-- changes nothing.
pub intercepted_details_clean :
    (org : Option String) (r : Request) (answer_id : Option String) (row : AuditLog) (j : Json)
    → intercept org r answer_id ≡ some row
    → row.details ≡ some j
    → (is_clean j ≡ true) × (sanitize j ≡ j)
intercepted_details_clean org r answer_id row j h d =
    details_of-clean (details_of r.body) j (cc (written-details org r answer_id row h))
