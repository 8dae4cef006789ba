-- ===== src/Ws/Config/Windows.antt =====
-- The window sizes that the handshake parses.
use ews.Common.{
  ℕ, ◌≡◌, refl, subst, true, ◌||◌, Option, none, some, List, [], ◌∷◌, arith, ltb, ◌==◌,
  if◌then◌else◌, Bool-cases, Option-cases, inl, inr,
}
use ews.Common.Int.{ℤ, pos, negsuc}
use ews.Common.Text.{Text, codes, same, to_lower, atoi}
use ews.Handshake.Extension.{
  Param, Extension, DeflateParams, window_bits, deflate_param, is_seen, is_empty,
  parse_deflate_from, no_params, parse_deflate,
}
use ews.Ws.Config.{valid_bits}

-- The windows of the parameters are absent or of 8 to 15 bits.
abbrev pub InRange : DeflateParams → Type 0
InRange p =
    (valid_bits p.server_max_window_bits ≡ true) × (valid_bits p.client_max_window_bits ≡ true)

abbrev pub IfSome {ℓ} : {A : Type ℓ} → (A → Type 0) → Option A → Type 0
IfSome P none = Unit {0}
IfSome P (some a) = P a

pub IfSome-some {ℓ} :
    {A : Type ℓ} (P : A → Type 0) (o : Option A) (a : A) → IfSome P o → o ≡ some a → P a
IfSome-some P o a h e = subst (IfSome P) e h

abbrev Ranged : Option ℕ → Type 0
Ranged = IfSome (λ n. valid_bits n ≡ true)

in_range :
    (x : Option ℤ)
    → Ranged (elim x [
      | none ↦ none
      | some (negsuc n) ↦ none
      | some (pos n) ↦ if ltb n 8 || ltb 15 n then none else some n
    ])
unfolding valid_bits
in_range none = tt
in_range (some (negsuc n)) = tt
in_range (some (pos n)) = elim (Bool-cases (ltb n 8 || ltb 15 n)) [
  | inl e ↦ rw e tt
  | inr e ↦ rw e (ground (arith, e))
]

window_bits-Ranged : (value : Text) → Ranged (window_bits value)
unfolding window_bits valid_bits
window_bits-Ranged [] = refl
window_bits-Ranged (c ∷ s) = in_range (atoi (c ∷ s))

server_bits :
    (p : DeflateParams) (x : Option ℕ)
    → InRange p
    → Ranged x
    → IfSome InRange (elim x [
      | none ↦ none
      | some bits ↦ if bits == 0 then none else some (record p { server_max_window_bits = bits })
    ])
server_bits p none ranged h = tt
server_bits p (some n) ranged h = elim (Bool-cases (n == 0)) [
  | inl e ↦ rw e tt
  | inr e ↦ rw e (h, ranged.1)
]

client_bits :
    (p : DeflateParams) (x : Option ℕ)
    → InRange p
    → Ranged x
    → IfSome InRange (elim x [
      | none ↦ none
      | some bits ↦ some (record p { client_max_window_bits = if bits == 0 then 15 else bits })
    ])
unfolding valid_bits
client_bits p none ranged h = tt
client_bits p (some n) ranged h = elim (Bool-cases (n == 0)) [
  | inl e ↦ (ranged.0, rw e refl)
  | inr e ↦ (ranged.0, rw e h)
]

flag_param :
    (p p' : DeflateParams) (value : Text)
    → InRange p'
    → IfSome InRange (if is_empty value then some p' else none)
flag_param p p' value ranged = elim (Bool-cases (is_empty value)) [
  | inl e ↦ rw e ranged
  | inr e ↦ rw e tt
]

deflate_param-InRange :
    (name value : Text) (p : DeflateParams)
    → InRange p
    → IfSome InRange (deflate_param name value p)
unfolding deflate_param
deflate_param-InRange name value p ranged =
    elim (Bool-cases (same name (codes "server_no_context_takeover"))) [
      | inl e₁ ↦ rw e₁ (flag_param p _ value ranged)
      | inr e₁ ↦ elim (Bool-cases (same name (codes "client_no_context_takeover"))) [
        | inl e₂ ↦ rw (e₁, e₂) (flag_param p _ value ranged)
        | inr e₂ ↦ elim (Bool-cases (same name (codes "server_max_window_bits"))) [
          | inl e₃ ↦
              rw (e₁, e₂, e₃) (server_bits p (window_bits value) ranged (window_bits-Ranged value))
          | inr e₃ ↦ elim (Bool-cases (same name (codes "client_max_window_bits"))) [
            | inl e₄ ↦
                rw (e₁, e₂, e₃, e₄)
                  (client_bits p (window_bits value) ranged (window_bits-Ranged value))
            | inr e₄ ↦ rw (e₁, e₂, e₃, e₄) tt
          ]
        ]
      ]
    ]

parse_deflate_from-InRange :
    (seen : List Text) (kvs : List Param) (p : DeflateParams)
    → InRange p
    → IfSome InRange (parse_deflate_from seen kvs p)
unfolding parse_deflate_from
parse_deflate_from-InRange seen [] p ranged = ranged
parse_deflate_from-InRange seen (kv ∷ kvs) p ranged =
    elim (Bool-cases (is_seen (to_lower kv.name) seen)) [
      | inl e ↦ rw e tt
      | inr e ↦ elim (Option-cases (deflate_param (to_lower kv.name) kv.value p)) [
        | inl n ↦ rw (e, n) tt
        | inr (p', n) ↦
            rw (e, n)
              (parse_deflate_from-InRange (to_lower kv.name ∷ seen) kvs p' (
                IfSome-some InRange _ p'
                  (deflate_param-InRange (to_lower kv.name) kv.value p ranged) n))
      ]
    ]

pub parse_deflate-InRange : (e : Extension) → IfSome InRange (parse_deflate e)
unfolding parse_deflate valid_bits
parse_deflate-InRange e = parse_deflate_from-InRange [] e.params no_params (refl, refl)
