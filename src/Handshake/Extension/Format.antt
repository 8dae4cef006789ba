-- ===== src/Handshake/Extension/Format.antt =====
-- `formatDeflate` read back by `parseExtensions` and `parseDeflate`.
use ews.Common.{
  ℕ, ◌≤◌, ◌≡◌, ◌⊎◌, refl, sym, ◌∙◌, Bool, true, false, not, Option, none, some, List, [], ◌∷◌, ◌==◌,
  ==_iff, if◌then◌else◌, arith, Bool-cases, inl, inr, All, subst,
}
use ews.Common.Int.{ℤ}
use ews.Common.Text.{
  equal_fold, same, split, cut, trim, trim_space, trim_byte, drop_while, to_lower, atoi, itoa,
}
use ews.Handshake.Types.{Compression}
use ews.Handshake.Extension.{
  Extension, DeflateParams, deflate_name, parse_extensions, parse_deflate, format_deflate,
}

-- The parameters of a header that holds permessage-deflate and nothing else.
abbrev pub only_params : Option (List Extension) → Option DeflateParams
only_params (some (e ∷ [])) = if equal_fold e.name deflate_name then parse_deflate e else none
only_params (some (e ∷ e' ∷ es)) = none
only_params (some []) = none
only_params none = none

pub record Holds (exts : Option (List Extension)) (p : DeflateParams) : Type 0 where
  pub extension : Extension
  pub alone : exts ≡ some (extension ∷ [])
  pub named : equal_fold extension.name deflate_name ≡ true
  pub params : parse_deflate extension ≡ some p

pub only_params-Holds :
    (exts : Option (List Extension)) (p : DeflateParams) → only_params exts ≡ some p → Holds exts p
only_params-Holds none p h = absurd (ground arith)
only_params-Holds (some []) p h = absurd (ground arith)
only_params-Holds (some (e ∷ e' ∷ es)) p h = absurd (ground arith)
only_params-Holds (some (e ∷ [])) p h = elim (Bool-cases (equal_fold e.name deflate_name)) [
  | inl same_name ↦ record {
    extension = e;
    alone = refl;
    named = same_name;
    params = sym (rw same_name refl) ∙ h;
  }
  | inr other ↦ absurd (ground (arith, other))
]

-- What the peer reads in the answer: 15 bits are not written, as the default.
abbrev pub answered : Compression → DeflateParams
answered c = record {
  server_no_context_takeover = not c.send_context_takeover;
  client_no_context_takeover = not c.receive_context_takeover;
  server_max_window_bits = if c.send_window_bits == 15 then 0 else c.send_window_bits;
  client_max_window_bits = 0;
}

abbrev Reads : Compression → Type 0
Reads c = only_params (parse_extensions (format_deflate c)) ≡ some (answered c)

abbrev with : ℤ → ℤ → ℕ → Bool → Bool → ℕ → Compression
with level min_size received send receive bits = record {
  level = level;
  min_size = min_size;
  send_context_takeover = send;
  receive_context_takeover = receive;
  send_window_bits = bits;
  receive_window_bits = received;
}

-- No bits, or 8 to 15.
abbrev pub IsBits : ℕ → Type 0
IsBits b = (b ≡ 0) ⊎ ((8 ≤ b) × (b ≤ 15))

all_sizes : List ℕ
all_sizes = 0 ∷ 8 ∷ 9 ∷ 10 ∷ 11 ∷ 12 ∷ 13 ∷ 14 ∷ 15 ∷ []

format_table :
    (level min_size : ℤ) (received : ℕ) (send receive : Bool)
    → All (λ b. Reads (with level min_size received send receive b)) all_sizes
unfolding all_sizes format_deflate parse_extensions split cut trim_space trim_byte trim drop_while
    to_lower same parse_deflate equal_fold itoa atoi
format_table level min_size received true true =
    (refl, (refl, (refl, (refl, (refl, (refl, (refl, (refl, (refl, tt)))))))))
format_table level min_size received true false =
    (refl, (refl, (refl, (refl, (refl, (refl, (refl, (refl, (refl, tt)))))))))
format_table level min_size received false true =
    (refl, (refl, (refl, (refl, (refl, (refl, (refl, (refl, (refl, tt)))))))))
format_table level min_size received false false =
    (refl, (refl, (refl, (refl, (refl, (refl, (refl, (refl, (refl, tt)))))))))

at_size {ℓ} : (P : ℕ → Type ℓ) (b : ℕ) → All P all_sizes → IsBits b → P b
unfolding all_sizes
at_size P b (p₀, rest) (inl e) = subst P (sym e) p₀
at_size P b (p₀, (p₈, (p₉, (p₁₀, (p₁₁, (p₁₂, (p₁₃, (p₁₄, (p₁₅, p))))))))) (inr (low, high)) =
    elim (Bool-cases (b == 8)) [
      | inl e ↦ subst P (sym ((==_iff b 8).0 e)) p₈
      | inr n₈ ↦ elim (Bool-cases (b == 9)) [
        | inl e ↦ subst P (sym ((==_iff b 9).0 e)) p₉
        | inr n₉ ↦ elim (Bool-cases (b == 10)) [
          | inl e ↦ subst P (sym ((==_iff b 10).0 e)) p₁₀
          | inr n₁₀ ↦ elim (Bool-cases (b == 11)) [
            | inl e ↦ subst P (sym ((==_iff b 11).0 e)) p₁₁
            | inr n₁₁ ↦ elim (Bool-cases (b == 12)) [
              | inl e ↦ subst P (sym ((==_iff b 12).0 e)) p₁₂
              | inr n₁₂ ↦ elim (Bool-cases (b == 13)) [
                | inl e ↦ subst P (sym ((==_iff b 13).0 e)) p₁₃
                | inr n₁₃ ↦ elim (Bool-cases (b == 14)) [
                  | inl e ↦ subst P (sym ((==_iff b 14).0 e)) p₁₄
                  | inr n₁₄ ↦ subst P (ground arith) p₁₅
                ]
              ]
            ]
          ]
        ]
      ]
    ]

-- A configuration whose send window is absent or of 8 to 15 bits, once formatted, parses as a single
-- permessage-deflate extension, and its parameters read back as the configuration's: a direction
-- without takeover is declared so, and the window where it is not the default of 15 bits.
pub parse_deflate-format_deflate :
    (c : Compression)
    → IsBits c.send_window_bits
    → Holds (parse_extensions (format_deflate c)) (answered c)
parse_deflate-format_deflate c b =
    only_params-Holds (parse_extensions (format_deflate c)) (answered c) (
      at_size
        (λ bits. Reads (
          with c.level c.min_size c.receive_window_bits c.send_context_takeover
            c.receive_context_takeover bits))
        c.send_window_bits
        (format_table c.level c.min_size c.receive_window_bits c.send_context_takeover
          c.receive_context_takeover)
        b)
