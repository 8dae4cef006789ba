-- ===== src/Ws/Writer/Data.antt =====
-- The calls that send data, of a writer whose transport takes every frame.
use ews.Common.{
  ℕ, ◌≡◌, ◌⊎◌, refl, sym, ap, ◌∙◌, Bool, true, false, not, ◌&&◌, ◌||◌, Option, none, some, List,
  arith, ltb, length, ◌==◌, ==_iff, if◌then◌else◌, Bool-cases, Option-cases, inl, inr,
}
use ews.Codec.Opcode.{Opcode, text, binary}
use ews.Codec.Mask.{MaskKey}
use ews.Ws.Errors.{Role}
use ews.Ws.Receiver.{is_some}
use ews.Ws.Sender.{encode, encode_compressed_message}
use ews.Ws.Writer.{
  Deflater, Writer, begin_message, send_frame, deflate, compressor_for, encode_data, write,
  fragment,
}
use ews.Ws.Writer.Frames.{rsv_of, encode-Encodes, encode_compressed_message-Encodes}
use ews.Ws.Writer.Stage.{Stage, is_closed, is_inside, Fits, Good, encoded-Good, message-Emits}
use ews.Ws.Writer.Steps.{Total, with_deflate, fragment_frame-Good}

message_kind :
    (op : Opcode) → not (op == text) && not (op == binary) ≡ false → (op ≡ text) ⊎ (op ≡ binary)
message_kind op h = elim (Bool-cases (op == text)) [
  | inl e ↦ inl ((==_iff op text).0 e)
  | inr e ↦ inr ((==_iff op binary).0 (ground (arith, e, h)))
]

-- No fragmented message is open where there is no opcode for one.
not_inside :
    {C : Type 0}
    → (role : Role) (deflating : Bool) (p : Stage) (c : Writer C) → Fits role deflating p c
    → (c.frag.op == 0) ≡ true
    → is_closed p ≡ false
    → is_inside p ≡ false
not_inside role deflating p c v free o = v.stage_ok o ∙ ap (λ b. not b && not c.frag.first) free

begun-Fits :
    {C : Type 0}
    → (role : Role) (deflating : Bool) (p : Stage) (c : Writer C) (fresh : C) (op : Opcode)
    → Fits role deflating p c
    → (op ≡ text) ⊎ (op ≡ binary)
    → (c.frag.op == 0) ≡ true
    → let take_one = c.deflating && not (is_some c.attached) in
      Fits role deflating p (record c {
        frag = record {
          op = op;
          first = true;
          compressed = c.deflating;
          held = if take_one then true else c.frag.held;
        };
        attached = if take_one then some fresh else c.attached;
      })
begun-Fits {C = C} role deflating p c fresh op v kind free = record {
  same_role = v.same_role;
  same_config = v.same_config;
  closed_ok = v.closed_ok;
  stage_ok = λ o. not_inside role deflating p c v free o ∙ no_more (op == 0);
  op_ok = inr kind;
  ready = λ busy z. (sym v.same_config ∙ z, taken c.deflating c.attached z);
}
  where
    no_more : (b : Bool) → false ≡ (not b && false)
    no_more true = refl
    no_more false = refl

    taken :
        (on : Bool) (k : Option C)
        → on ≡ true
        → is_some (if on && not (is_some k) then some fresh else k) ≡ true
    taken true none e = refl
    taken true (some k) e = refl
    taken false k e = absurd (ground (arith, e))

pub begin_message-Good :
    {C : Type 0}
    → (role : Role) (deflating : Bool) (p : Stage) (c : Writer C) (fresh : C) (op : Opcode)
    → Fits role deflating p c
    → Good role deflating p (begin_message fresh op c)
unfolding begin_message
begin_message-Good role deflating p c fresh op v =
    elim (Bool-cases (not (op == text) && not (op == binary))) [
      | inl e ↦ simp (e, begin_message) v
      | inr kind ↦ elim (Bool-cases (not (c.frag.op == 0))) [
        | inl e ↦ simp (kind, e, begin_message) v
        | inr free ↦ elim (Bool-cases c.tx.close_sent) [
          | inl e ↦ simp (kind, free, e, begin_message) v
          | inr e ↦
              simp (kind, free, e, begin_message)
                (begun-Fits role deflating p c fresh op v (message_kind op kind)
                  (ground (arith, free)))
        ]
      ]
    ]

module _ (D : Deflater) (total : Total D) (role : Role) (deflating : Bool) where
  deflate-some :
      (keep : Bool) (payload : List ℕ) (final : Bool) (k : D.Stream) (c : Writer D.Stream)
      → (z : List ℕ) × ((deflate D keep payload final k c).1 ≡ some z)
  unfolding deflate
  deflate-some keep payload final k c = elim (Option-cases (deflate D keep payload final k c).1) [
    | inr a ↦ a
    | inl e ↦ absurd (ground (arith, sym (total payload _ final k) ∙ ap is_some e))
  ]

  deflate-Fits :
      (p : Stage) (keep : Bool) (payload : List ℕ) (final : Bool) (k : D.Stream)
      (c : Writer D.Stream)
      → Fits role deflating p c
      → ((c.frag.op == 0) ≡ false → keep ≡ true)
      → let c' = (deflate D keep payload final k c).0 in
        Fits role deflating p c' × (c'.frag ≡ c.frag)
  unfolding deflate
  deflate-Fits p keep payload final k c v held =
      (with_deflate role deflating p c _ _ v (λ busy. rw (held busy) refl), refl)

  deflate-attached :
      (payload : List ℕ) (final : Bool) (k : D.Stream) (c : Writer D.Stream)
      → is_some (deflate D true payload final k c).0.attached ≡ true
  unfolding deflate
  deflate-attached payload final k c = refl

  encode_data-Good :
      (p : Stage) (c : Writer D.Stream) (random : MaskKey) (op : Opcode) (payload : List ℕ)
      → Fits role deflating p c
      → (op ≡ text) ⊎ (op ≡ binary)
      → (c.frag.op == 0) ≡ true
      → Good role deflating p (encode_data D random op payload c)
  unfolding encode_data
  encode_data-Good p c random op payload v kind free =
      elim (Bool-cases (not c.deflating || ltb (length payload) c.min_size)) [
        | inl e ↦ rw e (
            encoded-Good role deflating p c random op true false (encode random op payload c.tx) v
              (encode-Encodes random op payload c.tx)
              (λ s head f.
                message-Emits role deflating p c.tx s random op false head kind
                  (λ z. absurd (ground (arith, z))) v.same_role v.closed_ok
                  (not_inside role deflating p c v free) f))
        | inr e ↦
            let (k, keep) = compressor_for D c in
            let (z, deflated) = deflate-some keep payload true k c in
            let c' = (deflate D keep payload true k c).0 in
            let (v', same) =
              deflate-Fits p keep payload true k c v
                (λ busy. absurd (ground (arith, busy, free))) in
            simp (e, deflated, encode_data)
              (encoded-Good role deflating p c' random op true (rsv_of true op)
                (encode_compressed_message random op z c'.tx) v'
                (encode_compressed_message-Encodes random op z c'.tx)
                (λ s head f.
                  message-Emits role deflating p c'.tx s random op (rsv_of true op) head kind
                    (λ r. sym v.same_config ∙ ground (arith, e)) v'.same_role v'.closed_ok
                    (not_inside role deflating p c' v' (ap (λ t. t.op == 0) same ∙ free)) f))
      ]

  pub write-Good :
      (p : Stage) (c : Writer D.Stream) (random : MaskKey) (op : Opcode) (payload : List ℕ)
      → Fits role deflating p c
      → Good role deflating p (write D random none op payload c)
  unfolding write send_frame
  write-Good p c random op payload v = elim (Bool-cases (not (op == text) && not (op == binary))) [
    | inl e ↦ simp (e, write) v
    | inr kind ↦ elim (Bool-cases (not (c.frag.op == 0))) [
      | inl e ↦ simp (kind, e, write) v
      | inr free ↦
          simp (kind, free, write)
            (encode_data-Good p c random op payload v (message_kind op kind) (ground (arith, free)))
    ]
  ]

  pub fragment-Good :
      (p : Stage) (c : Writer D.Stream) (random : MaskKey) (payload : List ℕ) (final : Bool)
      → Fits role deflating p c
      → Good role deflating p (fragment D random none payload final c)
  unfolding fragment
  fragment-Good p c random payload final v = elim (Bool-cases (c.frag.op == 0)) [
    | inl e ↦ simp (e, fragment) v
    | inr busy ↦ elim (Bool-cases c.frag.compressed) [
      | inr plain ↦
          simp (busy, plain, fragment)
            (fragment_frame-Good role deflating p c random payload final v busy
              (λ z. absurd (ground (arith, plain, z))))
      | inl z ↦
          let (on, held) = v.ready busy z in
          elim (Option-cases c.attached) [
            | inl e ↦ absurd (ground (arith, sym held ∙ ap is_some e))
            | inr (k, e) ↦
                let (bytes, deflated) = deflate-some true payload final k c in
                let c' = (deflate D true payload final k c).0 in
                let (v', same) = deflate-Fits p true payload final k c v (λ b. refl) in
                simp (busy, z, e, deflated, fragment)
                  (fragment_frame-Good role deflating p c' random bytes final v'
                    (ap (λ t. t.op == 0) same ∙ busy)
                    (λ b. (on, deflate-attached payload final k c)))
          ]
    ]
  ]
