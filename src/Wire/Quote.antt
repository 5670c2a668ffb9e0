-- ===== src/Wire/Quote.antt =====
-- What the headers of a settlement stream announce, read off their list.
use directswarm.Base.{
  ℕ, ◌≡◌, refl, ap, ◌∙◌, Option, none, some, List, [], ◌∷◌, arith, length, ◌==◌, if◌then◌else◌, ltb,
  any, unwrap_or, bytes_beq, bytes_beq_iff, codes, Bool, false, Bool-cases, inl, inr,
}
use directswarm.Wire.{Bytes, take_header, big_endian}

-- A header as the list of its numbered fields.
abbrev pub Header : Type 0
Header = List (ℕ × Bytes)

-- The last key (field 1) and the last value (field 2), from the front.
unfoldable pub key_value : Bytes × Bytes → Header → Bytes × Bytes
key_value kv [] = kv
key_value (key, value) ((n, field) ∷ h) =
    key_value (if n == 1 then (field, value) else if n == 2 then (key, field) else (key, value)) h

-- All headers in order; a value of more than 32 bytes is refused.
unfoldable pub found_in : Option ℕ × ℕ → List Header → Option (Option ℕ × ℕ)
found_in found [] = some found
found_in found (h ∷ hs) =
    let kv = key_value ([], []) h in
    if ltb 32 (length kv.1) then none else found_in (take_header found kv) hs

-- What a header says: the value of its last field 1, or of its last field 2, empty without one.
unfoldable pub last_field : ℕ → Header → Option Bytes
last_field n [] = none
last_field n ((m, field) ∷ h) = elim (last_field n h) [
  | some later ↦ some later
  | none ↦ if m == n then some field else none
]

abbrev pub key_of : Header → Bytes
key_of h = unwrap_or (last_field 1 h) []

abbrev pub value_of : Header → Bytes
value_of h = unwrap_or (last_field 2 h) []

-- The value of the last header with the key.
unfoldable pub last_value : Bytes → List Header → Option Bytes
last_value key [] = none
last_value key (h ∷ hs) = elim (last_value key hs) [
  | some later ↦ some later
  | none ↦ if bytes_beq (key_of h) key then some (value_of h) else none
]

-- Some value is too long for a 256-bit number.
unfoldable pub is_too_long : List Header → Bool
is_too_long hs = any (λ h. ltb 32 (length (value_of h))) hs

-- The rate under its name is needed; the deduction under its own is zero if it is absent.
unfoldable pub quote_of : List Header → Option (ℕ × ℕ)
quote_of hs = if is_too_long hs then none else elim (last_value (codes "exchange") hs) [
  | none ↦ none
  | some rate ↦
      some (big_endian 0 rate, big_endian 0 (unwrap_or (last_value (codes "deduction") hs) []))
]

unwrap-last_field :
    (n m : ℕ) (field default : Bytes) (h : Header)
    → unwrap_or (last_field n ((m, field) ∷ h)) default
      ≡ unwrap_or (last_field n h) (if m == n then field else default)
unfolding last_field
unwrap-last_field n m field default h = go (last_field n h)
  where
    go :
        (o : Option Bytes)
        → unwrap_or
            (elim o [ some later ↦ some later | none ↦ if m == n then some field else none ])
            default
          ≡ unwrap_or o (if m == n then field else default)
    go (some later) = refl
    go none = elim (Bool-cases (m == n)) [ inl t ↦ rw t refl | inr t ↦ rw t refl ]

key_value_lem :
    (key value : Bytes) (h : Header)
    → key_value (key, value) h ≡ (unwrap_or (last_field 1 h) key, unwrap_or (last_field 2 h) value)
unfolding key_value
key_value_lem key value [] = unfold last_field in refl
key_value_lem key value ((n, field) ∷ h) =
    rw (unwrap-last_field 1 n field key h, unwrap-last_field 2 n field value h)
      (elim (Bool-cases (n == 1)) [
        | inl one ↦
            let not_two : n == 2 ≡ false = ground (arith, one) in
            rw (one, not_two) (key_value_lem field value h)
        | inr other ↦ elim (Bool-cases (n == 2)) [
          | inl two ↦ rw (other, two) (key_value_lem key field h)
          | inr none_of_both ↦ rw (other, none_of_both) (key_value_lem key value h)
        ]
      ])

-- The rate and the deduction after more headers.
abbrev rate_after : Option ℕ → Option Bytes → Option ℕ
rate_after rate none = rate
rate_after rate (some v) = some (big_endian 0 v)

abbrev deduction_after : ℕ → Option Bytes → ℕ
deduction_after deduction none = deduction
deduction_after deduction (some v) = big_endian 0 v

rate_after-cons :
    (rate : Option ℕ) (key : Bytes) (h : Header) (hs : List Header)
    → rate_after rate (last_value key (h ∷ hs))
      ≡ rate_after
          (if bytes_beq (key_of h) key then some (big_endian 0 (value_of h)) else rate)
          (last_value key hs)
unfolding last_value
rate_after-cons rate key h hs = go (last_value key hs)
  where
    go :
        (o : Option Bytes)
        → rate_after rate (elim o [
          | some later ↦ some later
          | none ↦ if bytes_beq (key_of h) key then some (value_of h) else none
        ])
          ≡ rate_after
              (if bytes_beq (key_of h) key then some (big_endian 0 (value_of h)) else rate)
              o
    go (some later) = refl
    go none = elim (Bool-cases (bytes_beq (key_of h) key)) [ inl t ↦ rw t refl | inr t ↦ rw t refl ]

deduction_after-cons :
    (deduction : ℕ) (key : Bytes) (h : Header) (hs : List Header)
    → deduction_after deduction (last_value key (h ∷ hs))
      ≡ deduction_after
          (if bytes_beq (key_of h) key then big_endian 0 (value_of h) else deduction)
          (last_value key hs)
unfolding last_value
deduction_after-cons deduction key h hs = go (last_value key hs)
  where
    go :
        (o : Option Bytes)
        → deduction_after deduction (elim o [
          | some later ↦ some later
          | none ↦ if bytes_beq (key_of h) key then some (value_of h) else none
        ])
          ≡ deduction_after
              (if bytes_beq (key_of h) key then big_endian 0 (value_of h) else deduction)
              o
    go (some later) = refl
    go none = elim (Bool-cases (bytes_beq (key_of h) key)) [ inl t ↦ rw t refl | inr t ↦ rw t refl ]

take_header_lem :
    (rate : Option ℕ) (deduction : ℕ) (key value : Bytes)
    → take_header (rate, deduction) (key, value) ≡ (
      if bytes_beq key (codes "exchange") then some (big_endian 0 value) else rate,
      if bytes_beq key (codes "deduction") then big_endian 0 value else deduction,
    )
unfolding take_header
take_header_lem rate deduction key value = elim (Bool-cases (bytes_beq key (codes "exchange"))) [
  | inl exchange ↦
      let other : bytes_beq key (codes "deduction") ≡ false =
        rw ((bytes_beq_iff key (codes "exchange")).0 exchange) refl in
      rw (exchange, other) refl
  | inr not_exchange ↦ elim (Bool-cases (bytes_beq key (codes "deduction"))) [
    | inl t ↦ rw (not_exchange, t) refl
    | inr t ↦ rw (not_exchange, t) refl
  ]
]

found_in_lem :
    (hs : List Header) (rate : Option ℕ) (deduction : ℕ)
    → found_in (rate, deduction) hs ≡ (
        if is_too_long hs
        then none
        else some (
          rate_after rate (last_value (codes "exchange") hs),
          deduction_after deduction (last_value (codes "deduction") hs),
        ))
unfolding found_in is_too_long
found_in_lem [] rate deduction = unfold last_value in refl
found_in_lem (h ∷ hs) rate deduction =
    rw
      (
        key_value_lem [] [] h,
        rate_after-cons rate (codes "exchange") h hs,
        deduction_after-cons deduction (codes "deduction") h hs,
        take_header_lem rate deduction (key_of h) (value_of h),
      )
      (elim (Bool-cases (ltb 32 (length (value_of h)))) [
        | inl long ↦ rw long refl
        | inr short ↦ rw short (found_in_lem hs _ _)
      ])

-- A rate is needed, a deduction is not.
abbrev pub with_rate : Option (Option ℕ × ℕ) → Option (ℕ × ℕ)
with_rate none = none
with_rate (some (none, deduction)) = none
with_rate (some (some rate, deduction)) = some (rate, deduction)

pub quote_lem : (hs : List Header) → with_rate (found_in (none, 0) hs) ≡ quote_of hs
unfolding quote_of
quote_lem hs = ap with_rate (found_in_lem hs none 0) ∙ elim (Bool-cases (is_too_long hs)) [
  | inl long ↦ rw long refl
  | inr short ↦ rw short (go (last_value (codes "exchange") hs) (last_value (codes "deduction") hs))
]
  where
    go :
        (rate deduction : Option Bytes)
        → with_rate (some (rate_after none rate, deduction_after 0 deduction)) ≡ elim rate [
          | none ↦ none
          | some v ↦ some (big_endian 0 v, big_endian 0 (unwrap_or deduction []))
        ]
    go none none = refl
    go none (some d) = refl
    go (some v) none = unfold big_endian in refl
    go (some v) (some d) = refl
