-- ===== src/Ws/Writer/Stage.antt =====
-- The order of frames that RFC 6455 allows on one direction of a connection, and what a writer keeps.
use ews.Common.{
  ℕ, ◌≤◌, ◌≡◌, ◌⊎◌, refl, sym, ap, ◌∙◌, Bool, true, false, not, ◌&&◌, ◌||◌, List, arith, ◌==◌, inl,
  inr,
}
use ews.Codec.Opcode.{Opcode, continuation, text, binary, close, ping, pong}
use ews.Codec.Mask.{MaskKey}
use ews.Codec.Wire.{wire_header}
use ews.Ws.Errors.{Role}
use ews.Ws.Receiver.{is_some}
use ews.Ws.Sender.{Sender, Encoded, frame, error, key_for}
use ews.Ws.Writer.{Writer, Outcome, wrote, opened, refused, panics, of_encoded}
use ews.Ws.Writer.Frames.{Framed, Encodes}

-- Between messages, inside a fragmented one, or after the close frame.
pub data Stage : Type 0 where
  idle inside closed : Stage

abbrev pub after : Bool → Stage
after true = idle
after false = inside

abbrev pub is_closed : Stage → Bool
is_closed closed = true
is_closed idle = false
is_closed inside = false

abbrev pub is_inside : Stage → Bool
is_inside inside = true
is_inside idle = false
is_inside closed = false

-- A data frame of any role's key: the first of a message carries its opcode, and RSV1 only where
-- compression was negotiated; later ones are continuations. A control frame may stand anywhere
-- before the close frame; after it, only pongs.
pub data Emits (role : Role) (deflating : Bool) : Stage → List ℕ → Stage → Type 0 where
  first :
      (random : MaskKey) (op : Opcode) (final rsv : Bool) (n : ℕ) (head : List ℕ)
      → (op ≡ text) ⊎ (op ≡ binary)
      → (rsv ≡ true → deflating ≡ true)
      → head ≡ wire_header final rsv op n (key_for role random)
      → Emits role deflating idle head (after final)
  next :
      (random : MaskKey) (final : Bool) (n : ℕ) (head : List ℕ)
      → head ≡ wire_header final false continuation n (key_for role random)
      → Emits role deflating inside head (after final)
  control :
      (random : MaskKey) (op : Opcode) (n : ℕ) (head : List ℕ) (p : Stage)
      → (op ≡ ping) × (is_closed p ≡ false) ⊎ (op ≡ pong)
      → n ≤ 125
      → head ≡ wire_header true false op n (key_for role random)
      → Emits role deflating p head p
  closing :
      (random : MaskKey) (n : ℕ) (head : List ℕ) (p : Stage)
      → is_closed p ≡ false
      → n ≤ 125
      → head ≡ wire_header true false close n (key_for role random)
      → Emits role deflating p head closed

pub record Fits {C : Type 0} (role : Role) (deflating : Bool) (p : Stage) (c : Writer C)
    : Type 0 where
  pub same_role : c.tx.role ≡ role
  pub same_config : c.deflating ≡ deflating
  pub closed_ok : c.tx.close_sent ≡ is_closed p
  pub stage_ok : is_closed p ≡ false → is_inside p ≡ not (c.frag.op == 0) && not c.frag.first
  pub op_ok : (c.frag.op ≡ 0) ⊎ ((c.frag.op ≡ text) ⊎ (c.frag.op ≡ binary))
  pub ready :
      (c.frag.op == 0) ≡ false
      → c.frag.compressed ≡ true
      → (deflating ≡ true) × (is_some c.attached ≡ true)

-- What a call comes to: a frame that may stand here, or none, and never a nil compressor.
abbrev pub Good : {C : Type 0} → Role → Bool → Stage → Writer C × Outcome → Type 0
Good role deflating p (c, wrote head body) =
    (q : Stage) × Emits role deflating p head q × Fits role deflating q c
Good role deflating p (c, opened) = Fits role deflating p c
Good role deflating p (c, refused err) = Fits role deflating p c
Good role deflating p (c, panics) = ⊥

-- The same fragment state behind another sender's state.
pub with_sender :
    {C : Type 0}
    → (role : Role) (deflating : Bool) (p q : Stage) (c : Writer C) (s : Sender)
    → Fits role deflating p c
    → s.role ≡ c.tx.role
    → s.close_sent ≡ is_closed q
    → (is_closed q ≡ false → q ≡ p)
    → Fits role deflating q (record c { tx = s })
with_sender role deflating p q c s v r e same = record {
  same_role = r ∙ v.same_role;
  same_config = v.same_config;
  closed_ok = e;
  stage_ok = λ o. ap is_inside (same o) ∙ v.stage_ok (sym (ap is_closed (same o)) ∙ o);
  op_ok = v.op_ok;
  ready = v.ready;
}

-- A frame of a sender, by where it leads.
pub encoded-Good :
    {C : Type 0}
    → (role : Role) (deflating : Bool) (p : Stage) (c : Writer C) (random : MaskKey) (op : Opcode)
      (final rsv : Bool) (r : Sender × Encoded)
    → Fits role deflating p c
    → Encodes random op final rsv c.tx r
    → ((s : Sender) (head : List ℕ)
        → Framed random op final rsv c.tx s head
        → (q : Stage) × Emits role deflating p head q
          × (s.close_sent ≡ is_closed q)
          × (is_closed q ≡ false → q ≡ p))
    → Good role deflating p (record c { tx = r.0 }, of_encoded r.1)
encoded-Good role deflating p c random op final rsv (s, frame head body) v e k =
    let (q, emits, closes, same) = k s head e in
    (q, emits, with_sender role deflating p q c s v e.same_role closes same)
encoded-Good role deflating p c random op final rsv (s, error err) v e k =
    with_sender role deflating p p c s v e.1 (e.0 ∙ v.closed_ok) (λ o. refl)

module _ (role : Role) (deflating : Bool) where
  -- A whole message, where no fragmented one is open.
  pub message-Emits :
      (p : Stage) (s s' : Sender) (random : MaskKey) (op : Opcode) (rsv : Bool) (head : List ℕ)
      → (op ≡ text) ⊎ (op ≡ binary)
      → (rsv ≡ true → deflating ≡ true)
      → s.role ≡ role
      → s.close_sent ≡ is_closed p
      → (is_closed p ≡ false → is_inside p ≡ false)
      → Framed random op true rsv s s' head
      → (q : Stage) × Emits role deflating p head q
        × (s'.close_sent ≡ is_closed q)
        × (is_closed q ≡ false → q ≡ p)
  message-Emits idle s s' random op rsv head kind d same c free f = (
    idle,
    first random op true rsv f.size head kind d
        (f.header ∙ ap (λ t. wire_header true rsv op f.size (key_for t random)) same),
    f.closes ∙ not_closing kind,
    λ o. refl,
  )
    where
      not_closing : (op ≡ text) ⊎ (op ≡ binary) → (op == close || s.close_sent) ≡ false
      not_closing (inl e) = rw (e, c) refl
      not_closing (inr e) = rw (e, c) refl
  message-Emits inside s s' random op rsv head kind d same c free f = absurd (ground (arith, free))
  message-Emits closed s s' random op rsv head kind d same c free f = absurd (refuses kind)
    where
      refuses : (op ≡ text) ⊎ (op ≡ binary) → ⊥
      refuses (inl e) = ground (arith, f.allowed, c, e)
      refuses (inr e) = ground (arith, f.allowed, c, e)
