-- ===== src/Ws/Writer/Steps.antt =====
-- Each call of a writer keeps to the order of frames.
use ews.Common.{
  ℕ, ◌≡◌, ◌⊎◌, refl, sym, ap, ◌∙◌, Bool, true, false, not, ◌&&◌, ◌||◌, Option, none, List, [],
  arith, ◌==◌, if◌then◌else◌, Bool-cases, inl, inr,
}
use ews.Codec.Opcode.{Opcode, continuation, text, binary, close, ping, pong}
use ews.Codec.Mask.{MaskKey}
use ews.Ws.Errors.{Role}
use ews.Ws.Receiver.{is_some}
use ews.Deflate.Window.{Window}
use ews.Ws.PreparedHistory.{SendHistory}
use ews.Ws.Sender.{Sender, Encoded, frame, error, encode, encode_fragment, encode_close}
use ews.Ws.Writer.{
  Deflater, Writer, encoded, end_fragmented, send_frame, after_fragment, fragment_frame, send,
  close_with, send_close,
}
use ews.Ws.Writer.Frames.{
  Encodes, is_frame, rsv_of, encode-Encodes, encode_fragment-Encodes, encode_close-Encodes,
  encode_fragment-is_frame,
}
use ews.Ws.Writer.Stage.{
  Stage, idle, inside, closed, after, is_closed, is_inside, Fits, Good, encoded-Good,
}
use ews.Ws.Writer.Moves.{
  open_kind, next_op, next_op-kind, fragment-Emits, control-Emits, closing-Emits,
}

-- `CompressChunk` returns no error, as its writer is a buffer in memory.
abbrev pub Total : Deflater → Type 0
Total D =
    (payload : List ℕ) (w : Option Window) (final : Bool) (k : D.Stream)
    → is_some (D.chunk payload w final k).1.1 ≡ true

end_fragmented_lem :
    {C : Type 0}
    → (c : Writer C)
    → ((end_fragmented c).tx ≡ c.tx)
      × ((end_fragmented c).deflating ≡ c.deflating)
      × ((end_fragmented c).frag.op ≡ 0)
unfolding end_fragmented
end_fragmented_lem c = elim (Bool-cases (c.frag.held && (c.shared || not (is_some c.history)))) [
  | inl e ↦ rw e (refl, refl, refl)
  | inr e ↦ rw e (refl, refl, refl)
]

-- Behind the end of a fragmented message none is open.
ended-Fits :
    {C : Type 0}
    → (role : Role) (deflating : Bool) (q : Stage) (c : Writer C) → c.tx.role ≡ role
    → c.deflating ≡ deflating
    → c.tx.close_sent ≡ is_closed q
    → is_inside q ≡ false
    → Fits role deflating q (end_fragmented c)
ended-Fits role deflating q c r d e out =
    let (tx, config, op) = end_fragmented_lem c in
    record {
      same_role = ap (λ s. s.role) tx ∙ r;
      same_config = config ∙ d;
      closed_ok = ap (λ s. s.close_sent) tx ∙ e;
      stage_ok = λ o. rw op out;
      op_ok = inl op;
      ready = λ busy. absurd (ground (arith, op, busy));
    }

-- Another compressor or history, with a compressor where the open message needs one.
pub with_deflate :
    {C : Type 0}
    → (role : Role) (deflating : Bool) (p : Stage) (c : Writer C) (h : Option SendHistory)
      (k : Option C)
    → Fits role deflating p c
    → ((c.frag.op == 0) ≡ false → is_some k ≡ true)
    → Fits role deflating p (record c { history = h; attached = k })
with_deflate role deflating p c h k v held = record {
  same_role = v.same_role;
  same_config = v.same_config;
  closed_ok = v.closed_ok;
  stage_ok = v.stage_ok;
  op_ok = v.op_ok;
  ready = λ busy z. ((v.ready busy z).0, held busy);
}

module _ (role : Role) (deflating : Bool) where
  -- The end of a fragment, sent or refused.
  fragment-end :
      {C : Type 0}
      → (p : Stage) (c : Writer C) (random : MaskKey) (final : Bool) (r : Sender × Encoded)
      → Fits role deflating p c
      → (c.frag.op == 0) ≡ false
      → (c.frag.compressed ≡ true → (deflating ≡ true) × (is_some c.attached ≡ true))
      → (is_closed p ≡ false → is_frame r.1 ≡ true)
      → (let op = if c.frag.first then c.frag.op else continuation in
          Encodes random op final (rsv_of c.frag.compressed op) c.tx r)
      → Good role deflating p (after_fragment final (encoded c r))
  unfolding after_fragment
  fragment-end p c random final (s, error err) v busy z sound e =
      ended-Fits role deflating p (record c { tx = s }) (e.1 ∙ v.same_role) v.same_config
        (e.0 ∙ v.closed_ok) (was_closed p sound)
    where
      was_closed :
          (q : Stage) → (is_closed q ≡ false → ◌≡◌ {A = Bool} false true) → is_inside q ≡ false
      was_closed idle k = refl
      was_closed closed k = refl
      was_closed inside k = absurd (ground (arith, k refl))
  fragment-end p c random final (s, frame head body) v busy z sound e =
      let kind = open_kind c.frag.op v.op_ok busy in
      let (no_pong, no_close, any) = next_op-kind c.frag kind in
      let before : c.tx.close_sent ≡ false = ground (arith, e.allowed, no_pong) in
      let p_open : is_closed p ≡ false = sym v.closed_ok ∙ before in
      let later : s.close_sent ≡ false =
        e.closes ∙ ap (λ b. b || c.tx.close_sent) no_close ∙ before in
      let place : is_inside p ≡ not c.frag.first =
        v.stage_ok p_open ∙ ap (λ b. not b && not c.frag.first) busy in
      (
        after final,
        fragment-Emits role deflating p c.tx s random c.frag final head v.same_role p_open place
            kind (λ k. (z k).0) e,
        sent_on final s kind later e.same_role,
      )
    where
      sent_on :
          (b : Bool) (s' : Sender)
          → (c.frag.op ≡ text) ⊎ (c.frag.op ≡ binary)
          → s'.close_sent ≡ false
          → s'.role ≡ c.tx.role
          → let c' = record c { tx = s'; frag = record c.frag { first = false } } in
            Fits role deflating (after b) (if b then end_fragmented c' else c')
      sent_on true s' kind later r =
          ended-Fits role deflating idle
            (record c { tx = s'; frag = record c.frag { first = false } }) (r ∙ v.same_role)
            v.same_config later refl
      sent_on false s' kind later r = record {
        same_role = r ∙ v.same_role;
        same_config = v.same_config;
        closed_ok = later;
        stage_ok = λ o. ground (arith, busy);
        op_ok = inr kind;
        ready = λ b k. z k;
      }

  pub fragment_frame-Good :
      {C : Type 0}
      → (p : Stage) (c : Writer C) (random : MaskKey) (payload : List ℕ) (final : Bool)
      → Fits role deflating p c
      → (c.frag.op == 0) ≡ false
      → (c.frag.compressed ≡ true → (deflating ≡ true) × (is_some c.attached ≡ true))
      → Good role deflating p (fragment_frame random none payload final c)
  unfolding fragment_frame send_frame
  fragment_frame-Good p c random payload final v busy z =
      let op = next_op c.frag in
      let (no_pong, no_close, any) = next_op-kind c.frag (open_kind c.frag.op v.op_ok busy) in
      fragment-end p c random final (encode_fragment random op final payload c.frag.compressed c.tx)
        v busy z
        (λ o.
          encode_fragment-is_frame random op final payload c.frag.compressed c.tx any
            (v.closed_ok ∙ o))
        (encode_fragment-Encodes random op final payload c.frag.compressed c.tx)

  pub send-Good :
      {C : Type 0}
      → (p : Stage) (c : Writer C) (random : MaskKey) (op : Opcode) (payload : List ℕ)
      → (op ≡ ping) ⊎ (op ≡ pong)
      → Fits role deflating p c
      → Good role deflating p (send random none op payload c)
  unfolding send send_frame
  send-Good p c random op payload kind v = rw (is_control_kind kind) (
      encoded-Good role deflating p c random op true false (encode random op payload c.tx) v
        (encode-Encodes random op payload c.tx)
        (λ s head f.
          control-Emits role deflating p c.tx s random op head kind v.same_role v.closed_ok f))
    where
      is_control_kind :
          (op ≡ ping) ⊎ (op ≡ pong)
          → not (c.frag.op == 0) && (not (op == ping) && (not (op == pong) && not (op == close)))
            ≡ false
      is_control_kind (inl e) = rw e (ground arith)
      is_control_kind (inr e) = rw e (ground arith)

  pub close_with-Good :
      {C : Type 0}
      → (p : Stage) (c : Writer C) (random : MaskKey) (code : ℕ) (reason : List ℕ)
      → Fits role deflating p c
      → Good role deflating p (close_with random none code reason c)
  unfolding close_with send_frame
  close_with-Good p c random code reason v =
      encoded-Good role deflating p c random close true false (encode_close random code reason c.tx)
        v (encode_close-Encodes random code reason c.tx)
        (λ s head f. closing-Emits role deflating p c.tx s random head v.same_role v.closed_ok f)

  pub send_close-Good :
      {C : Type 0}
      → (p : Stage) (c : Writer C) (random : MaskKey) (code : ℕ) → Fits role deflating p c
      → Good role deflating p (send_close random none code c)
  unfolding send_close
  send_close-Good p c random code v = elim (Bool-cases c.tx.close_sent) [
    | inl e ↦ simp (e, send_close) v
    | inr e ↦ simp (e, send_close) (close_with-Good p c random code [] v)
  ]
