-- ===== src/Ws/Config/Agreed.antt =====
-- What the handshake agrees to against what a connection takes.
use ews.Common.{
  ℕ, zero, suc, ◌+◌, ◌-◌, ◌≡◌, refl, sym, ap, subst, ◌∙◌, Bool, true, false, not, ◌&&◌, ◌||◌, none,
  some, List, [], ◌∷◌, arith, ltb, ◌==◌, if◌then◌else◌, Bool-cases, Option-cases, inl, inr,
}
use ews.Common.Int.{ℤ, pos, negsuc, ltb_ℤ}
use ews.Common.Text.{Text, equal_fold}
use ews.Handshake.Types.{
  Checked-cases, ok, bad_extension, invalid_options, Compress, Options, Compression, Agreed,
  Request, Response, Digest, valid_options,
}
use ews.Handshake.Extension.{
  Extension, DeflateParams, parse_deflate, deflate_name, parse_extensions,
}
use ews.Handshake.Negotiation.{
  server_compression, choose_offer, negotiate_compression, check_request, negotiate,
  client_compression, confirm_extensions, check_response, confirm,
}
use ews.Handshake.Negotiation.Acceptance.{negotiate-accepted, answer_with, ok-ok, refused-ne-ok}
use ews.Ws.Config.{
  valid_bits, valid_compression, Pool, window_pool, level_pool, compressor_pool, level_index,
}
use ews.Ws.Config.Windows.{InRange, IfSome, IfSome-some, parse_deflate-InRange}

-- A connection takes the parameters, and their compressor's pool exists.
abbrev pub Takes : Compression → Type 0
Takes c = (valid_compression (some c) ≡ true) × (pool : Pool) × (compressor_pool c ≡ some pool)

level_in_range :
    (l : ℤ)
    → ltb_ℤ l (negsuc 1) ≡ false
    → ltb_ℤ (pos 9) l ≡ false
    → (i : ℕ) × (level_index l ≡ some i) × (ltb i 12 ≡ true)
level_in_range (pos n) a b = (n + 2, refl, ground (arith, b))
level_in_range (negsuc zero) a b = (1, refl, refl)
level_in_range (negsuc (suc zero)) a b = (0, refl, refl)
level_in_range (negsuc (suc (suc n))) a b = absurd (ground (arith, a))

-- The checks of `valid_compression`, one by one.
valid_parts :
    (a b c d e : Bool)
    → not (a || (b || (c || (not d || not e)))) ≡ true
    → (a ≡ false) × (b ≡ false) × (d ≡ true)
valid_parts a b c d e h = (ground (arith, h), ground (arith, h), ground (arith, h))

valid-Takes : (c : Compression) → valid_compression (some c) ≡ true → Takes c
unfolding valid_compression compressor_pool valid_bits
valid-Takes c h =
    let (low, high, fits) =
      valid_parts (ltb_ℤ c.level (negsuc 1)) (ltb_ℤ (pos 9) c.level) (ltb_ℤ c.min_size (pos 0))
        (valid_bits c.send_window_bits) (valid_bits c.receive_window_bits) h in
    let (i, index, small) = level_in_range c.level low high in
    elim (Bool-cases (not (c.send_window_bits == 0) && not (c.send_window_bits == 15))) [
      | inl e ↦
          let inside : ltb c.send_window_bits 8 || not (ltb (c.send_window_bits - 8) 7) ≡ false =
            ground (arith, e, fits) in
          (h, window_pool (c.send_window_bits - 8), rw (e, inside) refl)
      | inr e ↦ (h, level_pool i, rw e (simp (index, small)))
    ]

options_parts :
    (c : Compress) (opts : Options)
    → opts.compression ≡ some c
    → valid_options opts ≡ none
    → (ltb_ℤ c.level (negsuc 1) ≡ false)
      × (ltb_ℤ (pos 9) c.level ≡ false)
      × (ltb_ℤ c.min_size (pos 0) ≡ false)
unfolding valid_options
options_parts c opts e v =
    let checks = ltb_ℤ c.level (negsuc 1) || (ltb_ℤ (pos 9) c.level || ltb_ℤ c.min_size (pos 0)) in
    let same : valid_options opts ≡ (if checks then some invalid_options else none) =
      simp (e, valid_options) in
    let h : (if checks then some invalid_options else none) ≡ none = sym same ∙ v in
    (ground (arith, h), ground (arith, h), ground (arith, h))

server-Takes :
    (c : Compress) (opts : Options) (p : DeflateParams)
    → opts.compression ≡ some c
    → valid_options opts ≡ none
    → InRange p
    → valid_compression (some (server_compression c p)) ≡ true
unfolding valid_compression server_compression
server-Takes c opts p e v (s, k) =
    let (low, high, size) = options_parts c opts e v in rw (low, high, size, s, k) refl

client-Takes :
    (c : Compress) (opts : Options) (p : DeflateParams)
    → opts.compression ≡ some c
    → valid_options opts ≡ none
    → InRange p
    → valid_compression (some (client_compression c p)) ≡ true
unfolding valid_compression client_compression
client-Takes c opts p e v (s, k) =
    let (low, high, size) = options_parts c opts e v in rw (low, high, size, s, k) refl

choose_offer-found :
    (c : Compress) (es : List Extension)
    → IfSome
        (λ k. (p : DeflateParams) × InRange p × (k ≡ server_compression c p))
        (choose_offer c es)
unfolding choose_offer
choose_offer-found c [] = tt
choose_offer-found c (e ∷ es) = elim (Bool-cases (not (equal_fold e.name deflate_name))) [
  | inl n ↦ rw n (choose_offer-found c es)
  | inr n ↦ elim (Option-cases (parse_deflate e)) [
    | inl q ↦ rw (n, q) (choose_offer-found c es)
    | inr (p, q) ↦ rw (n, q) (p, IfSome-some InRange _ p (parse_deflate-InRange e) q, refl)
  ]
]

-- The compression that the server settles on.
negotiate_compression-Takes :
    (opts : Options) (extensions : Text) (k : Compression)
    → valid_options opts ≡ none
    → negotiate_compression opts.compression extensions ≡ ok (some k)
    → Takes k
unfolding negotiate_compression
negotiate_compression-Takes opts extensions k v h = elim (Option-cases opts.compression) [
  | inl e ↦
      let q : ok none ≡ ok (some k) = sym (ap (λ o. negotiate_compression o extensions) e) ∙ h in
      absurd (ground (arith, ok-ok none (some k) q))
  | inr (c, e) ↦
      let q = sym (ap (λ o. negotiate_compression o extensions) e) ∙ h in
      elim (Option-cases (parse_extensions extensions)) [
        | inl n ↦
            absurd
              (refused-ne-ok bad_extension (some k) (sym (rw (n, negotiate_compression) refl) ∙ q))
        | inr (exts, n) ↦
            let found =
              ok-ok (choose_offer c exts) (some k) (sym (rw (n, negotiate_compression) refl) ∙ q) in
            let (p, ranged, same_params) =
              IfSome-some _ (choose_offer c exts) k (choose_offer-found c exts) found in
            subst Takes (sym same_params)
              (valid-Takes (server_compression c p) (server-Takes c opts p e v ranged))
      ]
]

-- Whatever compression `Negotiate` agrees to, `NewConn` accepts it, and its compressor's pool is one
-- that there is.
pub negotiate-Takes :
    (digest : Digest) (req : Request) (opts : Options) (resp : Response) (res : Agreed)
    (k : Compression)
    → negotiate digest req opts ≡ ok (resp, res)
    → res.compression ≡ some k
    → Takes k
unfolding negotiate
negotiate-Takes digest req opts resp res k h e =
    let v = (negotiate-accepted digest req opts resp res h).1 in
    elim (Option-cases (check_request digest req opts)) [
      | inr (err, n) ↦ absurd (refused-ne-ok err (resp, res) (sym (rw (n, negotiate) refl) ∙ h))
      | inl n ↦ elim (Checked-cases (negotiate_compression opts.compression req.extensions)) [
        | inr (err, m) ↦
            absurd (refused-ne-ok err (resp, res) (sym (rw (n, negotiate) (rw m refl)) ∙ h))
        | inl (compression, m) ↦
            let q =
              ok-ok (answer_with digest req opts compression) (resp, res)
                (sym (rw (n, negotiate) (rw m refl)) ∙ h) in
            negotiate_compression-Takes opts req.extensions k v
              (m ∙ ap ok (ap (λ x. x.1.compression) q ∙ e))
      ]
    ]

confirm_extensions-Takes :
    (opts : Options) (exts : List Extension) (k : Compression)
    → valid_options opts ≡ none
    → confirm_extensions opts.compression exts ≡ ok (some k)
    → Takes k
unfolding confirm_extensions
confirm_extensions-Takes opts exts k v h = elim (Option-cases opts.compression) [
  | inl e ↦ absurd (without exts (sym (ap (λ o. confirm_extensions o exts) e) ∙ h))
  | inr (c, e) ↦ agreed c e exts (sym (ap (λ o. confirm_extensions o exts) e) ∙ h)
]
  where
    without : (exts : List Extension) → confirm_extensions none exts ≡ ok (some k) → ⊥
    without [] q = ground (arith, ok-ok none (some k) q)
    without (x ∷ xs) q = refused-ne-ok bad_extension (some k) q

    some_eq : (a b : Compression) → some a ≡ some b → a ≡ b
    some_eq a b q = ground arith

    agreed :
        (c : Compress)
        → opts.compression ≡ some c
        → (exts : List Extension) → confirm_extensions (some c) exts ≡ ok (some k)
        → Takes k
    agreed c e [] q = absurd (ground (arith, ok-ok none (some k) q))
    agreed c e (x ∷ y ∷ xs) q = absurd (refused-ne-ok bad_extension (some k) q)
    agreed c e (x ∷ []) q = elim (Bool-cases (not (equal_fold x.name deflate_name))) [
      | inl n ↦
          absurd (refused-ne-ok bad_extension (some k) (sym (rw (n, confirm_extensions) refl) ∙ q))
      | inr n ↦ elim (Option-cases (parse_deflate x)) [
        | inl m ↦
            absurd
              (refused-ne-ok bad_extension (some k) (sym (rw (n, m, confirm_extensions) refl) ∙ q))
        | inr (p, m) ↦
            let found =
              ok-ok (some (client_compression c p)) (some k)
                (sym (rw (n, m, confirm_extensions) refl) ∙ q) in
            let same_params : client_compression c p ≡ k = some_eq _ _ found in
            subst Takes same_params (
              valid-Takes (client_compression c p)
                (client-Takes c opts p e v (IfSome-some InRange _ p (parse_deflate-InRange x) m)))
      ]
    ]

-- Whatever compression `Confirm` agrees to, under options that `NewRequest` took, `NewConn` accepts
-- it, and its compressor's pool is one that there is.
pub confirm-Takes :
    (digest : Digest) (req : Request) (resp : Response) (opts : Options) (res : Agreed)
    (k : Compression)
    → valid_options opts ≡ none
    → confirm digest req resp opts ≡ ok res
    → res.compression ≡ some k
    → Takes k
unfolding confirm
confirm-Takes digest req resp opts res k v h e =
    elim (Option-cases (check_response digest req resp)) [
      | inr (err, n) ↦ absurd (refused-ne-ok err res (sym (rw (n, confirm) refl) ∙ h))
      | inl n ↦ elim (Option-cases (parse_extensions resp.extensions)) [
        | inl m ↦ absurd (refused-ne-ok bad_extension res (sym (rw (n, confirm) (rw m refl)) ∙ h))
        | inr (exts, m) ↦ elim (Checked-cases (confirm_extensions opts.compression exts)) [
          | inr (err, l) ↦ absurd (refused-ne-ok err res (sym (rw (n, confirm) (simp (m, l))) ∙ h))
          | inl (compression, l) ↦
              let r : Agreed = record { compression = compression; protocol = resp.protocol } in
              let q = ok-ok r res (sym (rw (n, confirm) (simp (m, l))) ∙ h) in
              confirm_extensions-Takes opts exts k v (l ∙ ap ok (ap (λ x. x.compression) q ∙ e))
        ]
      ]
    ]
