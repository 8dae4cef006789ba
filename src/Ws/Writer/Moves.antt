-- ===== src/Ws/Writer/Moves.antt =====
-- Where a frame that was encoded leads.
use ews.Common.{
  ℕ, ◌≤◌, ◌≡◌, ◌⊎◌, refl, ap, ◌∙◌, Bool, true, false, not, ◌||◌, List, arith, ◌==◌, if◌then◌else◌,
  Bool-cases, inl, inr,
}
use ews.Codec.Opcode.{Opcode, continuation, text, binary, close, ping, pong, is_data, is_control}
use ews.Codec.Mask.{MaskKey}
use ews.Codec.Wire.{wire_header}
use ews.Ws.Errors.{Role, closing}
use ews.Ws.Sender.{Sender, key_for}
use ews.Ws.Writer.{Fragment}
use ews.Ws.Writer.Frames.{Framed, rsv_of}
use ews.Ws.Writer.Stage.{
  Stage, idle, inside, closed, after, is_closed, is_inside, Emits, first, next, control, closing,
}

pub open_kind :
    (op : Opcode)
    → (op ≡ 0) ⊎ ((op ≡ text) ⊎ (op ≡ binary))
    → (op == 0) ≡ false
    → (op ≡ text) ⊎ (op ≡ binary)
open_kind op (inl e) busy = absurd (ground (arith, e, busy))
open_kind op (inr k) busy = k

-- The opcode of the next fragment.
abbrev pub next_op : Fragment → Opcode
next_op frag = if frag.first then frag.op else continuation

pub next_op-kind :
    (frag : Fragment)
    → (frag.op ≡ text) ⊎ (frag.op ≡ binary)
    → (next_op frag == pong ≡ false)
      × (next_op frag == close ≡ false)
      × ((next_op frag ≡ text) ⊎ ((next_op frag ≡ binary) ⊎ (next_op frag ≡ continuation)))
next_op-kind frag kind = elim (Bool-cases frag.first) [
  | inr e ↦ rw e (refl, refl, inr (inr refl))
  | inl e ↦ elim kind [
    | inl k ↦ rw (e, k) (refl, refl, inl refl)
    | inr k ↦ rw (e, k) (refl, refl, inr (inl refl))
  ]
]

module _ (role : Role) (deflating : Bool) where
  -- A fragment that was sent, by whether it is the first.
  pub fragment-Emits :
      (p : Stage) (s s' : Sender) (random : MaskKey) (frag : Fragment) (final : Bool)
      (head : List ℕ)
      → s.role ≡ role
      → is_closed p ≡ false
      → is_inside p ≡ not frag.first
      → (frag.op ≡ text) ⊎ (frag.op ≡ binary)
      → (frag.compressed ≡ true → deflating ≡ true)
      → let op = if frag.first then frag.op else continuation in
        Framed random op final (rsv_of frag.compressed op) s s' head
        → Emits role deflating p head (after final)
  fragment-Emits closed s s' random frag final head same c place kind d f =
      absurd (ground (arith, c))
  fragment-Emits idle s s' random frag final head same c place kind d f =
      elim (Bool-cases frag.first) [
        | inr e ↦ absurd (ground (arith, e, place))
        | inl e ↦
            first random frag.op final (rsv_of frag.compressed frag.op) f.size head kind
              (λ z. d (ground (arith, z)))
              (f.header
                ∙ ap
                    (λ t.
                      wire_header final
                        (rsv_of frag.compressed (if t then frag.op else continuation))
                        (if t then frag.op else continuation) f.size (key_for s.role random))
                    e
                ∙ ap
                    (λ t.
                      wire_header final (rsv_of frag.compressed frag.op) frag.op f.size
                        (key_for t random))
                    same)
      ]
  fragment-Emits inside s s' random frag final head same c place kind d f =
      elim (Bool-cases frag.first) [
        | inl e ↦ absurd (ground (arith, e, place))
        | inr e ↦ next random final f.size head (
            f.header
            ∙ ap
                (λ t.
                  wire_header final (rsv_of frag.compressed (if t then frag.op else continuation))
                    (if t then frag.op else continuation) f.size (key_for s.role random))
                e
            ∙ ap (λ t. wire_header final t continuation f.size (key_for s.role random))
                (no_rsv frag.compressed)
            ∙ ap (λ t. wire_header final false continuation f.size (key_for t random)) same)
      ]
    where
      no_rsv : (b : Bool) → rsv_of b continuation ≡ false
      no_rsv true = refl
      no_rsv false = refl

  pub control-Emits :
      (p : Stage) (s s' : Sender) (random : MaskKey) (op : Opcode) (head : List ℕ)
      → (op ≡ ping) ⊎ (op ≡ pong)
      → s.role ≡ role
      → s.close_sent ≡ is_closed p
      → Framed random op true false s s' head
      → (q : Stage) × Emits role deflating p head q
        × (s'.close_sent ≡ is_closed q)
        × (is_closed q ≡ false → q ≡ p)
  unfolding is_data
  control-Emits p s s' random op head kind same c f = (
    p,
    control random op f.size head p (place kind) (small kind f.checked)
        (f.header ∙ ap (λ t. wire_header true false op f.size (key_for t random)) same),
    f.closes ∙ kept kind ∙ c,
    λ o. refl,
  )
    where
      place : (op ≡ ping) ⊎ (op ≡ pong) → (op ≡ ping) × (is_closed p ≡ false) ⊎ (op ≡ pong)
      place (inl e) = inl (e, ground (arith, f.allowed, c, e))
      place (inr e) = inr e

      small :
          (op ≡ ping) ⊎ (op ≡ pong)
          → (is_data op ≡ true)
            ⊎ ((is_control op ≡ true) × (◌≡◌ {A = Bool} true true) × (f.size ≤ 125))
          → f.size ≤ 125
      small k (inr (a, b, le)) = le
      small (inl e) (inl d) = absurd (ground (arith, e, d))
      small (inr e) (inl d) = absurd (ground (arith, e, d))

      kept : (op ≡ ping) ⊎ (op ≡ pong) → (op == close || s.close_sent) ≡ s.close_sent
      kept (inl e) = rw e refl
      kept (inr e) = rw e refl

  pub closing-Emits :
      (p : Stage) (s s' : Sender) (random : MaskKey) (head : List ℕ)
      → s.role ≡ role
      → s.close_sent ≡ is_closed p
      → Framed random close true false s s' head
      → (q : Stage) × Emits role deflating p head q
        × (s'.close_sent ≡ is_closed q)
        × (is_closed q ≡ false → q ≡ p)
  unfolding is_data
  closing-Emits p s s' random head same c f = (
    closed,
    closing random f.size head p (ground (arith, f.allowed, c)) (small f.checked)
        (f.header ∙ ap (λ t. wire_header true false close f.size (key_for t random)) same),
    f.closes,
    λ o. absurd (ground (arith, o)),
  )
    where
      small :
          (is_data close ≡ true)
            ⊎ ((is_control close ≡ true) × (◌≡◌ {A = Bool} true true) × (f.size ≤ 125))
          → f.size ≤ 125
      small (inr (a, b, le)) = le
      small (inl d) = absurd (ground (arith, d))
